-- ===== src/Visionx/Hash/Total.antt =====
-- A digest never reads out of range: it has 32 bytes for every header and nonce.
use vision_core.Prelude.{
  ℕ, zero, suc, ◌+◌, ◌%◌, ◌≡◌, refl, ap, ◌&&◌, Option, none, some, List, [], ◌∷◌, ltb, leb, ◌==◌,
  length, ◌∙◌, arith, Bool-cases, inl, inr,
}
use Prim.Native.Nat.{bit_and}
use vision_core.Prelude.Bytes.{Bytes}
use vision_core.Visionx.Params.{VisionXParams}
use vision_core.Visionx.Words.{◌⊕◌, rotate_left, wrapping_mul, wrapping_add}
use vision_core.Visionx.Words.Bounds.{length-expand_256}
use vision_core.Visionx.Dataset.{Memory, read, ◌>>=◌}
use vision_core.Visionx.Dataset.Size.{IsSized, read-some, init_scratch-some}
use vision_core.Visionx.Hash.{
  Mixer, write, rewrite, write_back, start, finish, fourth_read, mix_round, mix_loop, visionx_hash,
}

length-write : (xs : List ℕ) (i word : ℕ) → length (write xs i word) ≡ length xs
length-write [] i word = refl
length-write (x ∷ xs) zero word = refl
length-write (x ∷ xs) (suc i) word = ap suc (length-write xs i word)

-- The computation gives a mixer whose scratchpad is still in range.
abbrev Mixes : Option Mixer → Type 0
Mixes none = ⊥
Mixes (some m) = IsSized m.scratch

-- A read under a mask goes on with some word.
read-Mixes :
    (m : Memory) (index : ℕ) (f : ℕ → Option Mixer)
    → IsSized m
    → ((x : ℕ) → Mixes (f x))
    → Mixes (read m index >>= f)
read-Mixes m index f s k = let (x, e) = read-some m index s in rw e (k x)

rewrite-Mixes : (j mix : ℕ) (m : Mixer) → IsSized m.scratch → Mixes (rewrite j mix m)
unfolding rewrite
rewrite-Mixes j mix m s = read-Mixes m.scratch j _ s (λ old. omega (
  arith,
  length-write m.scratch.mem (bit_and j m.scratch.mask)
      (rotate_left (wrapping_add old (mix ⊕ 0x9E3779B97F4A7C15)) 41),
))

write_back-Mixes :
    (params : VisionXParams) (i mix : ℕ) (m : Mixer)
    → IsSized m.scratch
    → Mixes (write_back params i mix m)
unfolding write_back
write_back-Mixes params i mix m s =
    elim (Bool-cases (ltb 0 params.write_every && i % params.write_every == 0)) [
      | inr e ↦ rw e s
      | inl e ↦ rw e (
          rewrite-Mixes
            (rotate_left (mix ⊕ m.a ⊕ rotate_left m.b 11 ⊕ wrapping_mul i 0xA24BAED4963EE407) 31)
            mix m s)
    ]

fourth_read-Mixes :
    (params : VisionXParams) (m : Mixer) (v1 v3 : ℕ) (f : ℕ → Option Mixer)
    → IsSized m.scratch
    → ((x : ℕ) → Mixes (f x))
    → Mixes (fourth_read params m v1 v3 >>= f)
unfolding fourth_read
fourth_read-Mixes params m v1 v3 f s k = elim (Bool-cases (leb 4 params.reads_per_iter)) [
  | inl e ↦ rw e (read-Mixes m.scratch (rotate_left (v3 ⊕ v1 ⊕ m.acc) 29) f s k)
  | inr e ↦ rw e (k v3)
]

mix_round-Mixes :
    (params : VisionXParams) (i : ℕ) (m : Mixer) → IsSized m.scratch → Mixes (mix_round params i m)
unfolding mix_round
mix_round-Mixes params i m s = read-Mixes m.scratch _ _ s (λ v1. read-Mixes m.scratch _ _ s (λ v2.
    read-Mixes m.scratch _ _ s
      (λ v3. fourth_read-Mixes params m v1 v3 _ s (λ v4. write_back-Mixes params i _ _ s))))

bind-Mixes :
    (r : Option Mixer) (f : Mixer → Option Mixer)
    → Mixes r
    → ((m : Mixer) → IsSized m.scratch → Mixes (f m))
    → Mixes (r >>= f)
bind-Mixes none f p k = p
bind-Mixes (some m) f p k = k m p

mix_loop-Mixes :
    (params : VisionXParams) (count i : ℕ) (m : Mixer)
    → IsSized m.scratch
    → Mixes (mix_loop params count i m)
unfolding mix_loop
mix_loop-Mixes params zero i m s = s
mix_loop-Mixes params (suc count) i m s =
    bind-Mixes (mix_round params i m) _ (mix_round-Mixes params i m s)
      (λ m'. mix_loop-Mixes params count (i + 1) m')

Mixes-some : (r : Option Mixer) → Mixes r → (m : Mixer) × (r ≡ some m)
Mixes-some none p = absurd p
Mixes-some (some m) p = (m, refl)

-- A digest over a dataset whose mask is in range never reads out of range: for every header and
-- nonce, and whatever the parameters, it is there and has 32 bytes.
pub visionx_hash-some :
    (params : VisionXParams) (base : Memory) (header : Bytes) (nonce : ℕ)
    → IsSized base
    → (digest : Bytes) × (visionx_hash params base header nonce ≡ some digest)
      × (length digest ≡ 32)
unfolding visionx_hash finish
visionx_hash-some params base header nonce s =
    let (scratch, made, sized) = init_scratch-some params base header nonce s in
    let (m, mixed) =
      Mixes-some (mix_loop params params.mix_iters 0 (start header nonce scratch))
        (mix_loop-Mixes params params.mix_iters 0 (start header nonce scratch) sized) in
    (
      finish m,
      ap
            (λ r. r >>= λ sc.
              mix_loop params params.mix_iters 0 (start header nonce sc) >>= λ x. some (finish x))
            made
          ∙ ap (λ r. r >>= λ x. some (finish x)) mixed,
      length-expand_256 (m.a ⊕ m.acc) (m.b ⊕ rotate_left m.acc 3),
    )
