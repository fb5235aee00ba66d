-- ===== src/Store/Reads.antt =====
-- chain/storage.rs: the height index, the metadata and the reads, with the parts of the language's
-- library that they use: UTF-8 validation and `parse::<u64>`.
use vision_core.Prelude.{
  ℕ, ◌+◌, ◌-◌, ◌*◌, Bool, false, ◌&&◌, Option, none, some, [], ◌∷◌, ◌++◌, ltb, leb, ◌==◌,
  if◌then◌else◌, unwrap_or, Result, ok, err, ◌>>=◌,
}
use vision_core.Prelude.Text.{Text, text}
use vision_core.Prelude.Bytes.{Bytes, u64_mod}
use vision_core.Store.{Sled, height_key, tip_height_key, tip_hash_key, write_each}
use vision_core.Store.Decimal.{decimal}

-- What the validation of UTF-8 expects: the number of bytes to come, and the range of the next.
pub record Expect : Type 0 where
  pub remaining : ℕ
  pub low : ℕ
  pub high : ℕ

abbrev pub between : ℕ → ℕ → ℕ → Bool
between lo hi b = leb lo b && leb b hi

abbrev pub expect : ℕ → ℕ → ℕ → Option Expect
expect n lo hi = some (record { remaining = n; low = lo; high = hi })

-- After the first byte of a character.
unfoldable pub first_byte : ℕ → Option Expect
first_byte b =
    if leb b 127
    then expect 0 0 0
    else if between 194 223 b
    then expect 1 128 191
    else if b == 224
    then expect 2 160 191
    else if b == 237
    then expect 2 128 159
    else if between 225 239 b
    then expect 2 128 191
    else if b == 240
    then expect 3 144 191
    else if between 241 243 b
    then expect 3 128 191
    else if b == 244
    then expect 3 128 143
    else none

unfoldable pub next_byte : Expect → ℕ → Option Expect
unfolding first_byte
next_byte e b =
    if e.remaining == 0
    then first_byte b
    else if between e.low e.high b
    then expect (e.remaining - 1) 128 191
    else none

unfoldable pub scan_utf8 : Expect → Bytes → Bool
unfolding next_byte
scan_utf8 e [] = e.remaining == 0
scan_utf8 e (b ∷ bs) = elim (next_byte e b) [ none ↦ false | some next ↦ scan_utf8 next bs ]

-- `String::from_utf8`
unfoldable pub from_utf8 : Bytes → Result Text Text
unfolding scan_utf8
from_utf8 bytes =
    if scan_utf8 (record { remaining = 0; low = 0; high = 0 }) bytes
    then ok bytes
    else err (text "invalid utf-8")

unfoldable pub parse_digits : ℕ → Text → Option ℕ
parse_digits acc [] = some acc
parse_digits acc (c ∷ cs) =
    let value = acc * 10 + (c - b'0') in
    let rest = parse_digits value cs in
    if between b'0' b'9' c then (if ltb value u64_mod then rest else none) else none

-- `parse::<u64>`: a plus sign may stand before at least one digit.
unfoldable pub parse_u64 : Text → Option ℕ
unfolding parse_digits
parse_u64 [] = none
parse_u64 (c ∷ []) = if c == b'+' then none else parse_digits 0 (c ∷ [])
parse_u64 (c ∷ d ∷ cs) = if c == b'+' then parse_digits 0 (d ∷ cs) else parse_digits 0 (c ∷ d ∷ cs)

abbrev pub meta_key : Text → Text
meta_key key = text "meta:" ++ key

-- The stored tip for the comparison of `store_height_index`: 0 when it is absent or malformed.
abbrev pub tip_or_zero : Option Bytes → ℕ
tip_or_zero none = 0
tip_or_zero (some bytes) = elim (from_utf8 bytes) [ err e ↦ 0 | ok s ↦ unwrap_or (parse_u64 s) 0 ]

module _ {Db : Type 0} ⦃sled : Sled Db⦄ where
  -- The text under a key: `load_height_index` and `load_meta`.
  unfoldable pub load_text : Db → Text → Result (Option Text) Text
  unfolding from_utf8
  load_text db key = do
    stored ← sled.db_get db key
    elim stored [ none ↦ ok none | some bytes ↦ do value ← from_utf8 bytes; ok (some value) ]

  abbrev pub load_height_index : Db → ℕ → Result (Option Text) Text
  load_height_index db height = load_text db (height_key height)

  abbrev pub load_meta : Db → Text → Result (Option Text) Text
  load_meta db key = load_text db (meta_key key)

  unfoldable pub store_meta : Db → Text → Text → Result Db Text
  store_meta db key value = sled.db_insert db (meta_key key) value

  -- The store comes back on the error paths too, since an earlier write may have been made.
  unfoldable pub store_height_index : Db → ℕ → Text → Db × Result (Unit {0}) Text
  unfolding write_each from_utf8 parse_u64
  store_height_index db height h = elim (sled.db_insert db (height_key height) h) [
    | err e ↦ (db, err e)
    | ok indexed ↦ elim (sled.db_get indexed tip_height_key) [
      | err e ↦ (indexed, err e)
      | ok stored ↦
          if leb (tip_or_zero stored) height
          then write_each indexed ((tip_height_key, decimal height) ∷ (tip_hash_key, h) ∷ [])
          else (indexed, ok tt)
    ]
  ]
