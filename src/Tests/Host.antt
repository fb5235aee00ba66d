-- ===== src/Tests/Host.antt =====
-- Concrete functions in place of the third-party code: hex as it is documented, and simple stand-ins for
-- the digest, the serializers, the signatures, the store and the VisionX hash.
use vision_core.Prelude.{
  keep_if, is_some, ℕ, ◌+◌, ◌-◌, ◌*◌, ◌/◌, ◌%◌, ◌^◌, ◌≡◌, ◌<◌, refl, true, ◌&&◌, Option, none, some,
  List, [], ◌∷◌, ◌++◌, leb, ◌==◌, if◌then◌else◌, length, take, drop, replicate, all, ok, arith,
  Bool-cases, inl, inr, subst, sym, ap, ◌∙◌,
}
use vision_core.Prelude.Text.{Text, text_eq}
use vision_core.Prelude.Bytes.{Bytes, to_le_bytes, to_be_bytes, from_le_bytes}
use vision_core.Prelude.Bytes.Order.{AreBytes}
use vision_core.Prelude.Map.{Map, get, insert, remove}
use vision_core.Types.{Tx, CashTransferArgs}
use vision_core.External.{External}
use vision_core.Transaction.{is_lowercase_hex, is_lower_hex_byte}
use vision_core.StateRoot.Injective.{HexDecodeInjective}
use vision_core.Difficulty.Target.{HexDecodeBytes}
use vision_core.Store.{Sled, BatchOp}
use vision_core.Chain.{VisionX}
use vision_core.Chain.Accept.{genesis_hash}
use vision_core.Chain.Restore.{strip_prefix}
use vision_core.Tests.Samples.{genesis_block}

-- A digit, uppercase ones included.
unfoldable pub nibble : ℕ → Option ℕ
nibble c =
    if leb b'0' c && leb c b'9'
    then some (c - b'0')
    else if leb b'a' c && leb c b'f'
    then some (c - b'a' + 10)
    else if leb b'A' c && leb c b'F'
    then some (c - b'A' + 10)
    else none

abbrev pub join : Option ℕ → Option ℕ → Option Bytes → Option Bytes
join (some hi) (some lo) (some rest) = some ((hi * 16 + lo) ∷ rest)
join _ _ _ = none

unfoldable pub decode : Text → Option Bytes
unfolding nibble
decode [] = some []
decode (c ∷ []) = none
decode (c ∷ d ∷ cs) = join (nibble c) (nibble d) (decode cs)

abbrev pub digit : ℕ → ℕ
digit n = if leb 10 n then n - 10 + b'a' else n + b'0'

unfoldable pub encode : Bytes → Text
encode [] = []
encode (b ∷ bs) = digit (b / 16) ∷ digit (b % 16) ∷ encode bs

unfoldable pub sum_bytes : Bytes → ℕ
sum_bytes [] = 0
sum_bytes (b ∷ bs) = (b + 31 * sum_bytes bs) % 2 ^ 64

unfoldable pub parse_args : Bytes → Option CashTransferArgs
unfolding from_le_bytes
parse_args bytes =
    if length bytes == 72
    then some (record { to = take 64 bytes; amount = from_le_bytes (drop 64 bytes) })
    else none

unfoldable pub write_tx : Tx → Bytes
unfolding to_le_bytes
write_tx tx =
    to_le_bytes 8 tx.nonce
    ++ tx.sender_pubkey
    ++ tx.module_name
    ++ tx.method
    ++ tx.args
    ++ to_le_bytes 8 tx.tip
    ++ to_le_bytes 8 tx.fee_limit
    ++ tx.sig

instance unfoldable pub host : External
unfolding decode encode sum_bytes parse_args write_tx to_be_bytes
host = record {
  blake3 = λ bytes. to_be_bytes 32 (sum_bytes bytes);
  hex_encode = encode;
  hex_decode = decode;
  serialize_tx = write_tx;
  serialize_block = λ b. b.header.pow_hash;
  deserialize_block = λ bytes. if text_eq bytes genesis_hash then some genesis_block else none;
  serialize_balances = λ m. [];
  serialize_nonces = λ m. [];
  serialize_index = λ height h. h;
  serialize_text = λ t. t;
  deserialize_balances = λ bytes. some [];
  deserialize_nonces = λ bytes. some [];
  deserialize_index = λ bytes. some (0, bytes);
  deserialize_text = λ bytes. some bytes;
  args_from_json = parse_args;
  is_verifying_key = λ key. true;
  verify = λ key message sig. length sig == 64;
}

-- A map that writes every key, and a batch that writes its entries in turn.
unfoldable pub write_batch : Map Bytes → List BatchOp → Map Bytes
unfolding insert remove
write_batch db [] = db
write_batch db ((k, none) ∷ ops) = write_batch (remove k db) ops
write_batch db ((k, some v) ∷ ops) = write_batch (insert k v db) ops

instance unfoldable pub memory_store : Sled (Map Bytes)
unfolding write_batch strip_prefix
memory_store = record {
  scan_prefix = λ db prefix. keep_if (λ e. is_some (strip_prefix prefix e.0)) db;
  db_get = λ db k. ok (get k db);
  db_insert = λ db k v. ok (insert k v db);
  apply_batch = λ db ops. ok (write_batch db ops);
}

-- Every header has the digest of 32 zeros.
instance unfoldable pub zero_digest : VisionX
zero_digest = record { epoch = λ n. 0; block_digest = λ epoch header. some (replicate 32 0) }

nibble_fits : (c n : ℕ) → nibble c ≡ some n → n < 16
unfolding nibble
nibble_fits c n h = ground arith

nibble-injective :
    (c d n : ℕ)
    → is_lower_hex_byte c ≡ true
    → is_lower_hex_byte d ≡ true
    → nibble c ≡ some n
    → nibble d ≡ some n
    → c ≡ d
unfolding nibble
nibble-injective c d n hc hd ec ed = ground arith

join-cases :
    (a b : Option ℕ) (r : Option Bytes) (bytes : Bytes)
    → join a b r ≡ some bytes
    → (hi lo : ℕ) × (rest : Bytes) × (a ≡ some hi)
      × (b ≡ some lo)
      × (r ≡ some rest)
      × ((hi * 16 + lo) ∷ rest ≡ bytes)
join-cases none b r bytes h = cc
join-cases (some hi) none r bytes h = cc
join-cases (some hi) (some lo) none bytes h = cc
join-cases (some hi) (some lo) (some rest) bytes h = (hi, lo, rest, refl, refl, refl, cc)

some-injective {ℓ} : {A : Type ℓ} {a b : A} → ◌≡◌ {A = Option A} (some a) (some b) → a ≡ b
some-injective e = cc

decode-AreBytes : (s : Text) (bytes : Bytes) → decode s ≡ some bytes → AreBytes bytes
unfolding decode
decode-AreBytes [] bytes h = subst AreBytes (some-injective h) tt
decode-AreBytes (c ∷ []) bytes h = cc
decode-AreBytes (c ∷ d ∷ cs) bytes h =
    let (hi, lo, rest, ec, ed, er, e) = join-cases (nibble c) (nibble d) (decode cs) bytes h in
    subst AreBytes e
      (omega (arith, nibble_fits c hi ec, nibble_fits d lo ed), decode-AreBytes cs rest er)

joined-injective :
    (hi lo hi' lo' : ℕ)
    → lo < 16
    → lo' < 16
    → hi * 16 + lo ≡ hi' * 16 + lo'
    → (hi ≡ hi') × (lo ≡ lo')
joined-injective hi lo hi' lo' h h' e = (omega arith, omega arith)

cons-injective : (x y : ℕ) (xs ys : Bytes) → ◌≡◌ {A = Bytes} (x ∷ xs) (y ∷ ys) → (x ≡ y) × (xs ≡ ys)
cons-injective x y xs ys e = (cc, cc)

all_parts :
    (c d : ℕ) (s : Text)
    → all is_lower_hex_byte (c ∷ d ∷ s) ≡ true
    → (is_lower_hex_byte c ≡ true) × (is_lower_hex_byte d ≡ true) × (all is_lower_hex_byte s ≡ true)
all_parts c d s h = elim (Bool-cases (is_lower_hex_byte c)) [
  | inr e ↦ absurd (ground (arith, h, e))
  | inl e ↦ elim (Bool-cases (is_lower_hex_byte d)) [
    | inr f ↦ absurd (ground (arith, h, e, f))
    | inl f ↦ (e, f, ground (arith, h, e, f))
  ]
]

same_parts : (c c' d d' : ℕ) (s t : Text) → c ≡ c' → d ≡ d' → s ≡ t → c ∷ d ∷ s ≡ c' ∷ d' ∷ t
same_parts c c' d d' s t e f g = cc

decode-injective :
    (s t : Text) (bytes : Bytes)
    → all is_lower_hex_byte s ≡ true
    → all is_lower_hex_byte t ≡ true
    → decode s ≡ some bytes
    → decode t ≡ some bytes
    → s ≡ t
unfolding decode
decode-injective [] [] bytes ls lt hs ht = refl
decode-injective [] (d ∷ []) bytes ls lt hs ht = cc
decode-injective [] (c ∷ d ∷ t) bytes ls lt hs ht =
    let (hi, lo, rest, ec, ed, er, e) = join-cases (nibble c) (nibble d) (decode t) bytes ht in
    absurd (ground (arith, hs, e))
decode-injective (c ∷ []) t bytes ls lt hs ht = cc
decode-injective (c ∷ d ∷ s) [] bytes ls lt hs ht =
    let (hi, lo, rest, ec, ed, er, e) = join-cases (nibble c) (nibble d) (decode s) bytes hs in
    absurd (ground (arith, ht, e))
decode-injective (c ∷ d ∷ s) (x ∷ []) bytes ls lt hs ht = cc
decode-injective (c ∷ d ∷ s) (c' ∷ d' ∷ t) bytes ls lt hs ht =
    let (hi, lo, rest, ec, ed, er, e) = join-cases (nibble c) (nibble d) (decode s) bytes hs in
    let (hi', lo', rest', ec', ed', er', e') =
      join-cases (nibble c') (nibble d') (decode t) bytes ht in
    let both = cons-injective (hi * 16 + lo) (hi' * 16 + lo') rest rest' (e ∙ sym e') in
    let left = all_parts c d s ls in
    let right = all_parts c' d' t lt in
    let heads =
      joined-injective hi lo hi' lo' (nibble_fits d lo ed) (nibble_fits d' lo' ed') both.0 in
    let tails : rest ≡ rest' = both.1 in
    same_parts c c' d d' s t
      (nibble-injective c c' hi left.0 right.0 ec (ec' ∙ ap some (sym heads.0)))
      (nibble-injective d d' lo left.1 right.1 ed (ed' ∙ ap some (sym heads.1)))
      (decode-injective s t rest left.2 right.2 er (er' ∙ ap some (sym tails)))

pub host-HexDecodeInjective : HexDecodeInjective
unfolding host is_lowercase_hex
host-HexDecodeInjective s t bytes ls lt hs ht = decode-injective s t bytes ls lt hs ht

pub host-HexDecodeBytes : HexDecodeBytes
unfolding host
host-HexDecodeBytes s bytes h = decode-AreBytes s bytes h
