-- ===== src/Chain/Orphan/Oldest.antt =====
-- The search for the oldest orphan ends at an entry of the pool.
use vision_core.Prelude.{
  ℕ, suc, ◌+◌, ◌≡◌, refl, none, some, List, [], ◌∷◌, get_elem?, arith, ◌≢◌, All, All-imp, inl, inr,
  Bool-cases, ap, ltb,
}
use vision_core.Prelude.Text.{Text, text_eq_iff, text_eq_refl}
use vision_core.Prelude.Map.{Map, get, IsSorted}
use vision_core.Prelude.Map.Laws.{get-After}
use vision_core.Chain.{OrphanEntry}
use vision_core.Chain.Orphan.{count, Oldest, older, oldest_of, find_oldest}

abbrev pub Pool : Type 0
Pool = Map (List OrphanEntry)

-- A key and a position at which the pool holds an entry.
abbrev pub Holds : Pool → Text → ℕ → Type 0
Holds m key pos =
    (v : List OrphanEntry) × (o : OrphanEntry) × (get key m ≡ some v) × (get_elem? v pos ≡ some o)

-- The search ends at an entry of the pool.
abbrev pub Found : Pool → Oldest → Type 0
Found m none = Unit
Found m (some (key, pos, ts)) = Holds m key pos

older-Found :
    (m : Pool) (oldest : Oldest) (key : Text) (pos ts : ℕ)
    → Found m oldest
    → Holds m key pos
    → Found m (older oldest key pos ts)
older-Found m none key pos ts f h = h
older-Found m (some (k, p, t)) key pos ts f h = elim (Bool-cases (ltb ts t)) [
  | inl e ↦ rw e h
  | inr e ↦ rw e f
]

oldest_of-Found :
    (m : Pool) (key : Text) (v : List OrphanEntry) (pos : ℕ) (os : List OrphanEntry)
    (oldest : Oldest)
    → get key m ≡ some v
    → ((i : ℕ) → get_elem? v (pos + i) ≡ get_elem? os i)
    → Found m oldest
    → Found m (oldest_of key pos os oldest)
unfolding oldest_of
oldest_of-Found m key v pos [] oldest e at f = f
oldest_of-Found m key v pos (o ∷ os) oldest e at f =
    oldest_of-Found m key v (suc pos) os (older oldest key pos o.arrival) e
      (λ i. rw (show_eq pos i) (at (suc i)))
      (older-Found m oldest key pos o.arrival f (v, o, e, ground (arith, at 0)))
  where
    show_eq : (a i : ℕ) → suc a + i ≡ a + suc i
    show_eq a i = omega arith

pub get-entries : (m : Pool) → IsSorted m → All (λ e. get e.0 m ≡ some e.1) m
unfolding get
get-entries [] s = tt
get-entries ((j, w) ∷ m) s = (
  ground (arith, text_eq_refl j),
  All-imp (λ e. get e.0 m ≡ some e.1) (λ e. get e.0 ((j, w) ∷ m) ≡ some e.1) m
      (λ e h. ground (arith, h, text_eq_iff e.0 j, get-After j m s.0)) (get-entries m s.1),
)

pub find_oldest-Found :
    (m rest : Pool) (oldest : Oldest)
    → All (λ e. get e.0 m ≡ some e.1) rest
    → Found m oldest
    → Found m (find_oldest rest oldest)
unfolding find_oldest
find_oldest-Found m [] oldest h f = f
find_oldest-Found m ((key, v) ∷ rest) oldest h f =
    find_oldest-Found m rest (oldest_of key 0 v oldest) h.1
      (oldest_of-Found m key v 0 v oldest h.0 (λ i. ap (get_elem? v) (omega arith)) f)

older-some : (oldest : Oldest) (key : Text) (pos ts : ℕ) → older oldest key pos ts ≢ none
older-some none key pos ts = ground arith
older-some (some (k, p, t)) key pos ts = ground arith

oldest_of-some :
    (key : Text) (pos : ℕ) (os : List OrphanEntry) (oldest : Oldest)
    → oldest ≢ none
    → oldest_of key pos os oldest ≢ none
unfolding oldest_of
oldest_of-some key pos [] oldest h = h
oldest_of-some key pos (o ∷ os) oldest h =
    oldest_of-some key (suc pos) os (older oldest key pos o.arrival)
      (older-some oldest key pos o.arrival)

find_oldest-some : (m : Pool) (oldest : Oldest) → oldest ≢ none → find_oldest m oldest ≢ none
unfolding find_oldest
find_oldest-some [] oldest h = h
find_oldest-some ((key, v) ∷ m) oldest h =
    find_oldest-some m (oldest_of key 0 v oldest) (oldest_of-some key 0 v oldest h)

-- A pool with an entry has an oldest one.
pub find_oldest-none : (m : Pool) → find_oldest m none ≡ none → count m ≡ 0
unfolding find_oldest count oldest_of
find_oldest-none [] h = refl
find_oldest-none ((key, []) ∷ m) h = omega (arith, find_oldest-none m h)
find_oldest-none ((key, o ∷ os) ∷ m) h = absurd (
    find_oldest-some m (oldest_of key 1 os (some (key, 0, o.arrival)))
      (oldest_of-some key 1 os (some (key, 0, o.arrival)) (ground arith)) h)
