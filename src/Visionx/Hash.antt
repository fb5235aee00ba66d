-- ===== src/Visionx/Hash.antt =====
-- pow/visionx.rs: `visionx_hash`, over a dataset and a scratchpad of its own.
pub mod Total
use Prim.Native.Nat.{bit_and}
use vision_core.Prelude.{
  ℕ, zero, suc, ◌+◌, ◌*◌, ◌%◌, Bool, true, false, ◌&&◌, Option, none, some, List, [], ◌∷◌, ltb, leb,
  ◌==◌, if◌then◌else◌, take, drop, foldl,
}
use mathlib.Core.Option
use vision_core.Prelude.Bytes.{Bytes, from_be_bytes}
use vision_core.Visionx.Params.{VisionXParams}
use vision_core.Visionx.Words.{
  ◌⊕◌, wrapping_add, wrapping_mul, rotate_left, rotate_right, chunks, padded, expand_256,
}
use vision_core.Visionx.Dataset.{Memory, read, init_scratch, ◌>>=◌}

-- The two words that the header goes into.
unfoldable pub absorb : ℕ × ℕ → Bytes → ℕ × ℕ
unfolding wrapping_mul rotate_left rotate_right padded from_be_bytes
absorb (a, b) chunk =
    let p = padded 16 chunk in
    let x = from_be_bytes (take 8 p) in
    let y = from_be_bytes (drop 8 p) in
    let a' = a ⊕ wrapping_mul x 0x9E3779B185EBCA87 in
    let b' = b ⊕ wrapping_mul y 0xC2B2AE3D27D4EB4F in
    let a'' = rotate_left a' 13 ⊕ rotate_right b' 7 in
    (a'', rotate_left b' 29 ⊕ rotate_right a'' 19)

-- The registers and the scratchpad.
pub record Mixer : Type 0 where
  pub a : ℕ
  pub b : ℕ
  pub acc : ℕ
  pub scratch : Memory

-- `scratch[index] = word`
abbrev pub write : List ℕ → ℕ → ℕ → List ℕ
write [] index word = []
write (x ∷ xs) zero word = word ∷ xs
write (x ∷ xs) (suc index) word = x ∷ write xs index word

-- The change of the word at an index under the mask.
unfoldable pub rewrite : ℕ → ℕ → Mixer → Option Mixer
unfolding wrapping_add rotate_left
rewrite j mix m = read m.scratch j >>= λ old. some (record m {
  scratch = record m.scratch {
    mem =
        write m.scratch.mem (bit_and j m.scratch.mask)
          (rotate_left (wrapping_add old (mix ⊕ 0x9E3779B97F4A7C15)) 41);
  };
})

-- The write-back of round `i`.
unfoldable pub write_back : VisionXParams → ℕ → ℕ → Mixer → Option Mixer
unfolding wrapping_mul rotate_left rewrite
write_back params i mix m =
    if ltb 0 params.write_every && i % params.write_every == 0
    then rewrite
        (rotate_left (mix ⊕ m.a ⊕ rotate_left m.b 11 ⊕ wrapping_mul i 0xA24BAED4963EE407) 31) mix m
    else some m

-- The fourth word of a round, where the parameters ask for one.
unfoldable pub fourth_read : VisionXParams → Mixer → ℕ → ℕ → Option ℕ
unfolding rotate_left
fourth_read params m v1 v3 =
    if leb 4 params.reads_per_iter
    then read m.scratch (rotate_left (v3 ⊕ v1 ⊕ m.acc) 29)
    else some v3

-- Round `i` of the mixing loop.
unfoldable pub mix_round : VisionXParams → ℕ → Mixer → Option Mixer
unfolding wrapping_mul rotate_left rotate_right fourth_read write_back
mix_round params i m = do
  v1 ← read m.scratch (rotate_left (m.a ⊕ m.b ⊕ m.acc ⊕ wrapping_mul i 0x9E3779B9) 17)
  v2 ← read m.scratch (rotate_left (v1 ⊕ m.a ⊕ m.acc) 23)
  v3 ← read m.scratch (rotate_left (v2 ⊕ m.b ⊕ m.acc) 19)
  v4 ← fourth_read params m v1 v3
  let mix = v1 ⊕ rotate_left v2 13 ⊕ wrapping_mul v3 0x94D049BB133111EB ⊕ rotate_right v4 7
  let a = rotate_left m.a 13 ⊕ wrapping_mul mix 0xC2B2AE3D27D4EB4F
  let b = rotate_left m.b 17 ⊕ wrapping_mul (mix ⊕ m.acc) 0xBF58476D1CE4E5B9
  let acc = rotate_left m.acc 7 ⊕ wrapping_mul (a ⊕ b) 0xD6E8FEB86659FD93
  write_back params i mix (record { a = a; b = b; acc = acc; scratch = m.scratch })

-- `count` rounds, from round `i`.
unfoldable pub mix_loop : VisionXParams → ℕ → ℕ → Mixer → Option Mixer
unfolding mix_round
mix_loop params zero i m = some m
mix_loop params (suc count) i m = do m' ← mix_round params i m; mix_loop params count (i + 1) m'

-- The registers before the loop.
unfoldable pub start : Bytes → ℕ → Memory → Mixer
unfolding rotate_left rotate_right absorb chunks
start header nonce scratch =
    let first : ℕ × ℕ =
      (0x243F6A8885A308D3 ⊕ rotate_left nonce 17, 0x13198A2E03707344 ⊕ rotate_right nonce 11) in
    let absorbed = foldl absorb first (chunks 16 header) in
    record {
      a = absorbed.0;
      b = absorbed.1;
      acc = absorbed.0 ⊕ absorbed.1 ⊕ 0xDEADBEEFF00DFACE;
      scratch = scratch;
    }

-- The digest of the registers after the loop.
unfoldable pub finish : Mixer → Bytes
unfolding expand_256 rotate_left
finish m = expand_256 (m.a ⊕ m.acc) (m.b ⊕ rotate_left m.acc 3)

unfoldable pub visionx_hash : VisionXParams → Memory → Bytes → ℕ → Option Bytes
unfolding init_scratch mix_loop start finish
visionx_hash params base header nonce = do
  scratch ← init_scratch params base header nonce
  m ← mix_loop params params.mix_iters 0 (start header nonce scratch)
  some (finish m)
