-- ===== src/Visionx/Dataset/Size.antt =====
-- Sizes are powers of two at least as large as asked, and no read is out of range.
use vision_core.Prelude.{
  ℕ, zero, suc, ◌+◌, ◌-◌, ◌*◌, ◌/◌, ◌^◌, ◌≤◌, ◌<◌, ◌≡◌, refl, ap, some, List, [], ◌∷◌, ltb,
  get_elem?, length, foldl, arith, Bool-cases, inl, inr,
}
use Prim.Native.Nat.{bit_and}
use native.Mathlib.Nat.{pow-suc}
use vision_core.Prelude.Bytes.{Bytes}
use vision_core.Visionx.Params.{VisionXParams}
use vision_core.Visionx.Words.{
  next, rotate_left, rotate_right, wrapping_mul, ◌⊕◌, chunks, fold_chunk,
}
use vision_core.Visionx.Words.Bounds.{bit_and-le}
use vision_core.Visionx.Dataset.{
  double_until, words_for, fill, Memory, build, read, fill_scratch, init_scratch,
}

pow-positive : (k : ℕ) → 1 ≤ 2 ^ k
pow-positive zero = omega arith
pow-positive (suc k) = rw pow-suc (omega (arith, pow-positive k))

-- From a power of two, the fuel being at least what is missing.
double_until-pow :
    (fuel k words : ℕ)
    → words ≤ 2 ^ k + fuel
    → (j : ℕ) × (double_until fuel (2 ^ k) words ≡ 2 ^ j) × (words ≤ 2 ^ j)
unfolding double_until
double_until-pow zero k words h = (k, refl, omega (arith, h))
double_until-pow (suc fuel) k words h = elim (Bool-cases (ltb (2 ^ k) words)) [
  | inl more ↦
      let positive : 1 ≤ 2 ^ k = pow-positive k in
      let (j, e, h') = double_until-pow fuel (suc k) words (rw pow-suc (omega (arith, positive))) in
      (j, rw (double_until, more) (rw (← pow-suc) e), h')
  | inr done ↦ (k, rw (double_until, done) refl, ground arith)
]

-- The size of a memory is the power of two at or above the words asked for.
pub words_for-pow : (mb : ℕ) → (j : ℕ) × (words_for mb ≡ 2 ^ j) × (mb * 1024 * 1024 / 8 ≤ 2 ^ j)
unfolding words_for
words_for-pow mb = double_until-pow (mb * 1024 * 1024 / 8) 0 (mb * 1024 * 1024 / 8) (omega arith)

words_for-positive : (mb : ℕ) → 1 ≤ words_for mb
words_for-positive mb = let (j, e, h) = words_for-pow mb in omega (arith, e, pow-positive j)

length-fill : (words state : ℕ) → length (fill words state) ≡ words
unfolding fill
length-fill zero state = refl
length-fill (suc words) state = ap suc (length-fill words (next state).0)

-- Every index under the mask is in range.
abbrev pub IsSized : Memory → Type 0
IsSized m = m.mask < length m.mem

get-in_range : (xs : List ℕ) (i : ℕ) → i < length xs → (x : ℕ) × (get_elem? xs i ≡ some x)
get-in_range [] i h = absurd (omega arith)
get-in_range (x ∷ xs) zero h = (x, refl)
get-in_range (x ∷ xs) (suc i) h = get-in_range xs i (omega arith)

pub read-some : (m : Memory) (index : ℕ) → IsSized m → (x : ℕ) × (read m index ≡ some x)
read-some m index s =
    get-in_range m.mem (bit_and index m.mask) (omega (arith, bit_and-le index m.mask))

pub build-IsSized :
    (params : VisionXParams) (prev : Bytes) (epoch : ℕ) → IsSized (build params prev epoch)
unfolding build
build-IsSized params prev epoch =
    let words = words_for params.dataset_mb in
    omega (arith, length-fill words _, words_for-positive params.dataset_mb)

fill_scratch-some :
    (base : Memory) (words state : ℕ)
    → IsSized base
    → (mem : List ℕ) × (fill_scratch base words state ≡ some mem) × (length mem ≡ words)
unfolding fill_scratch
fill_scratch-some base zero state s = ([], refl, refl)
fill_scratch-some base (suc words) state s =
    let mixed = next state in
    let w1 = read-some base (rotate_left mixed.1 17) s in
    let w2 = read-some base (rotate_right mixed.1 23) s in
    let rest = fill_scratch-some base words mixed.0 s in
    (
      (w1.0 ⊕ w2.0 ⊕ wrapping_mul mixed.1 0xC2B2AE3D27D4EB4F) ∷ rest.0,
      rw (w1.1, w2.1, rest.1) refl,
      ap suc rest.2,
    )

pub init_scratch-some :
    (params : VisionXParams) (base : Memory) (header : Bytes) (nonce : ℕ)
    → IsSized base
    → (m : Memory) × (init_scratch params base header nonce ≡ some m) × IsSized m
unfolding init_scratch
init_scratch-some params base header nonce s =
    let words = words_for params.scratch_mb in
    let seed = foldl (fold_chunk 13 7) (nonce ⊕ 0xDEADBEEFF00DFACE) (chunks 8 header) in
    let (mem, e, len) = fill_scratch-some base words seed s in
    (
      record { mem = mem; mask = words - 1 },
      rw e refl,
      omega (arith, len, words_for-positive params.scratch_mb),
    )
