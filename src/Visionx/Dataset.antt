-- ===== src/Visionx/Dataset.antt =====
-- pow/visionx.rs: `VisionXDataset::build` and `init_scratch`, the memories that a digest reads. A read
-- out of range, where the code panics, is `none`.
pub mod Size
use Prim.Native.Nat.{bit_and}
use vision_core.Prelude.{
  ℕ, zero, suc, ◌+◌, ◌-◌, ◌*◌, ◌/◌, true, false, Option, none, some, List, [], ◌∷◌, ltb, get_elem?,
  foldl,
}
use mathlib.Core.Option
use vision_core.Prelude.Bytes.{Bytes}
use vision_core.Visionx.Params.{VisionXParams}
use vision_core.Visionx.Words.{
  ◌⊕◌, wrapping_mul, rotate_left, rotate_right, next, chunks, fold_chunk, fold_seed,
}

-- `while n < words { n <<= 1 }`, on fuel; `Size` proves the fuel enough.
unfoldable pub double_until : ℕ → ℕ → ℕ → ℕ
double_until zero n words = n
double_until (suc fuel) n words = elim (ltb n words) [
  | true ↦ double_until fuel (n * 2) words
  | false ↦ n
]

-- The number of words for a size in megabytes.
unfoldable pub words_for : ℕ → ℕ
unfolding double_until
words_for mb = let words = mb * 1024 * 1024 / 8 in double_until words 1 words

-- `words` words of the generator.
unfoldable pub fill : ℕ → ℕ → List ℕ
unfolding next
fill zero state = []
fill (suc words) state = let (moved, word) = next state in word ∷ fill words moved

-- A memory and its mask.
pub record Memory : Type 0 where
  pub mem : List ℕ
  pub mask : ℕ

unfoldable pub build : VisionXParams → Bytes → ℕ → Memory
unfolding words_for fill fold_seed
build params prev_hash32 epoch =
    let words = words_for params.dataset_mb in
    record { mem = fill words (fold_seed prev_hash32 epoch); mask = words - 1 }

-- The read at an index under the mask.
abbrev pub read : Memory → ℕ → Option ℕ
read m index = get_elem? m.mem (bit_and index m.mask)

infixl 5 ◌>>=◌
abbrev pub ◌>>=◌ {ℓ κ} : {A : Type ℓ} {B : Type κ} → Option A → (A → Option B) → Option B
none >>= f = none
some a >>= f = f a

-- The words of the scratchpad, from two words of the dataset each.
unfoldable pub fill_scratch : Memory → ℕ → ℕ → Option (List ℕ)
unfolding next rotate_left rotate_right wrapping_mul
fill_scratch base zero state = some []
fill_scratch base (suc words) state = do
  let mixed = next state
  word1 ← read base (rotate_left mixed.1 17)
  word2 ← read base (rotate_right mixed.1 23)
  rest ← fill_scratch base words mixed.0
  some ((word1 ⊕ word2 ⊕ wrapping_mul mixed.1 0xC2B2AE3D27D4EB4F) ∷ rest)

unfoldable pub init_scratch : VisionXParams → Memory → Bytes → ℕ → Option Memory
unfolding words_for fill_scratch fold_chunk chunks
init_scratch params base header nonce =
    let words = words_for params.scratch_mb in
    let seed = foldl (fold_chunk 13 7) (nonce ⊕ 0xDEADBEEFF00DFACE) (chunks 8 header) in
    Option.map (λ mem. record { mem = mem; mask = words - 1 }) (fill_scratch base words seed)
