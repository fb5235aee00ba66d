-- ===== src/StateRoot.antt =====
-- chain/state_root.rs: the canonical state vector and its hash.
pub mod Entries
pub mod Canonical
pub mod Layout
pub mod Injective
pub mod Accounts
use Prim.Native.Nat.Ordering.{gt}
use vision_core.Prelude.{
  ℕ, Bool, true, false, not, ◌&&◌, ◌||◌, List, [], ◌∷◌, ◌++◌, leb, ◌==◌, if◌then◌else◌, length,
  keep_if, none, some, Option, Result, ok, err, ◌>>=◌, ◌>>◌, ensure, ok_or,
}
use vision_core.Prelude.Text.{Text, text, cmp}
use vision_core.Prelude.Bytes.{Bytes, to_le_bytes}
use vision_core.Prelude.Map.{Map}
use vision_core.External.{External}
use vision_core.Transaction.{is_lower_hex_byte}

pub data StateRootError : Type 0 where
  malformed_account_key mixed_case_account_key : StateRootError

-- The flags of the loop over the bytes of a key.
pub record KeyScan : Type 0 where
  pub saw_uppercase : Bool
  pub saw_non_lower_hex : Bool

-- The body of that loop.
unfoldable pub note_byte : KeyScan → ℕ → KeyScan
note_byte flags byte =
    if leb b'A' byte && leb byte b'F'
    then record flags { saw_uppercase = true }
    else if not (is_lower_hex_byte byte)
    then record flags { saw_non_lower_hex = true }
    else flags

unfoldable pub scan_key : KeyScan → Text → KeyScan
unfolding note_byte
scan_key flags [] = flags
scan_key flags (byte ∷ rest) = scan_key (note_byte flags byte) rest

unfoldable pub validate_account_key : Text → Result (Unit {0}) StateRootError
unfolding scan_key
validate_account_key key = do
  ensure (length key == 64) malformed_account_key
  let scan = scan_key (record { saw_uppercase = false; saw_non_lower_hex = false }) key
  ensure (not scan.saw_uppercase) mixed_case_account_key
  ensure (not scan.saw_non_lower_hex) malformed_account_key

abbrev pub state_root_version : ℕ
state_root_version = 1

unfoldable pub encode_header : Bytes
unfolding to_le_bytes
encode_header = text "VSTATE" ++ to_le_bytes 4 state_root_version

-- `sort_by` on the keys: a stable insertion sort.
unfoldable pub place : Text × ℕ → Map ℕ → Map ℕ
place e [] = e ∷ []
place e (f ∷ rest) = elim (cmp e.0 f.0) [ gt ↦ f ∷ place e rest | _ ↦ e ∷ f ∷ rest ]

unfoldable pub sort_by_key : Map ℕ → Map ℕ
unfolding place
sort_by_key [] = []
sort_by_key (e ∷ rest) = place e (sort_by_key rest)

abbrev pub nonzero : Map ℕ → Map ℕ
nonzero = keep_if (λ e. not (e.1 == 0))

module _ ⦃ext : External⦄ where
  unfoldable pub decode_account_key : Text → Result Bytes StateRootError
  decode_account_key key = do
    validate_account_key key
    bytes ← ok_or (ext.hex_decode key) malformed_account_key
    if length bytes == 32 then ok bytes else err malformed_account_key

  -- The loop that writes each key and its value, at the width of the value.
  unfoldable pub append_entries : ℕ → Map ℕ → Bytes → Result Bytes StateRootError
  append_entries width [] out = ok out
  append_entries width ((key, value) ∷ rest) out = do
    decoded ← decode_account_key key
    append_entries width rest (out ++ (decoded ++ to_le_bytes width value))

  unfoldable pub append_balances : Bytes → Map ℕ → Result Bytes StateRootError
  append_balances out balances =
      let entries = sort_by_key (nonzero balances) in
      append_entries 16 entries (out ++ to_le_bytes 8 (length entries))

  unfoldable pub append_nonces : Bytes → Map ℕ → Result Bytes StateRootError
  append_nonces out nonces =
      let entries = sort_by_key (nonzero nonces) in
      append_entries 8 entries (out ++ to_le_bytes 8 (length entries))

  unfoldable pub canonical_state_vector : Map ℕ → Map ℕ → Result Bytes StateRootError
  canonical_state_vector balances nonces = do
    out ← append_balances encode_header balances
    append_nonces out nonces

  unfoldable pub compute_state_root : Map ℕ → Map ℕ → Result Text StateRootError
  compute_state_root balances nonces = do
    vector ← canonical_state_vector balances nonces
    ok (ext.hex_encode (ext.blake3 vector))
