-- ===== src/StateRoot/Entries.antt =====
-- The entries that the state vector holds: filtering and sorting an ordered map.
use vision_core.Prelude.{ℕ, ◌≡◌, ◌≢◌, refl, [], ◌∷◌, All, unwrap_or, arith, some, none}
use vision_core.Prelude.Text.{Text, text_eq_iff, text_eq_refl}
use vision_core.Prelude.Map.{Map, get, After, IsSorted}
use vision_core.Prelude.Map.Laws.{get-After}
use vision_core.StateRoot.{place, sort_by_key, nonzero}

pub nonzero-After : (k : Text) (m : Map ℕ) → After k m → After k (nonzero m)
nonzero-After k [] a = tt
nonzero-After k ((j, v) ∷ m) a = ground (arith, nonzero-After k m a.1, a.0)

pub nonzero-IsSorted : (m : Map ℕ) → IsSorted m → IsSorted (nonzero m)
nonzero-IsSorted [] s = tt
nonzero-IsSorted ((j, v) ∷ m) s = ground (arith, nonzero-IsSorted m s.1, nonzero-After j m s.0)

place-After : (e : Text × ℕ) (m : Map ℕ) → After e.0 m → place e m ≡ e ∷ m
unfolding place
place-After e [] a = refl
place-After e (f ∷ m) a = ground (arith, a.0)

-- A map in key order is left as it is.
pub sort-IsSorted : (m : Map ℕ) → IsSorted m → sort_by_key m ≡ m
unfolding sort_by_key
sort-IsSorted [] s = refl
sort-IsSorted (e ∷ m) s = rw (sort-IsSorted m s.1) (place-After e m s.0)

-- Leaving the zero entries out changes no balance and no nonce.
pub get-nonzero :
    (k : Text) (m : Map ℕ) → IsSorted m → unwrap_or (get k (nonzero m)) 0 ≡ unwrap_or (get k m) 0
unfolding get
get-nonzero k [] s = refl
get-nonzero k ((j, v) ∷ m) s =
    ground (arith, get-nonzero k m s.1, text_eq_iff k j, get-After k m, s.0)

abbrev pub AllNonzero : Map ℕ → Type 0
AllNonzero = All (λ e. e.1 ≢ 0)

pub nonzero-AllNonzero : (m : Map ℕ) → AllNonzero (nonzero m)
nonzero-AllNonzero [] = tt
nonzero-AllNonzero ((j, v) ∷ m) = ground (arith, nonzero-AllNonzero m)

-- What a lookup returns, with zero for a missing key.
abbrev pub value_of : Text → Map ℕ → ℕ
value_of k m = unwrap_or (get k m) 0

pub get-nil : (k : Text) → get {V = ℕ} k [] ≡ none
unfolding get
get-nil k = refl

pub get-head : (k : Text) (v : ℕ) (m : Map ℕ) → get k ((k, v) ∷ m) ≡ some v
unfolding get
get-head k v m = ground (arith, text_eq_refl k)

pub get-tail : (a k : Text) (v : ℕ) (m : Map ℕ) → a ≢ k → get a ((k, v) ∷ m) ≡ get a m
unfolding get
get-tail a k v m h = ground (arith, text_eq_iff a k)
