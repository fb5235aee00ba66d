-- ===== src/Chain/Restore/Newest.antt =====
-- The order in which the snapshots are tried: by height, the newest first.
use vision_core.Prelude.{
  refl, ℕ, ◌≡◌, ◌≤◌, ◌<◌, ◌⊎◌, inl, inr, ◌∙◌, sym, ap, subst, true, false, Option, none, some, List,
  [], ◌∷◌, leb, ltb, if◌then◌else◌, Result, ok, err, Result-cases, Bool-cases, ok-injective, arith,
}
use vision_core.Prelude.Text.{Text}
use vision_core.Prelude.Bytes.{Bytes}
use vision_core.External.{External}
use vision_core.Store.{Sled}
use vision_core.Chain.{ChainState}
use vision_core.Chain.Restore.{
  heights_up_to, keep_height, height_of_key, place_descending, sort_descending, restore_snapshot_at,
  restore_first,
}

abbrev pub In : ℕ → List ℕ → Type 0
In k [] = ⊥
In k (h ∷ hs) = (k ≡ h) ⊎ In k hs

-- No height of the list is above a bound.
abbrev pub Below : ℕ → List ℕ → Type 0
Below top [] = Unit
Below top (h ∷ hs) = (h ≤ top) × Below top hs

abbrev pub IsDescending : List ℕ → Type 0
IsDescending [] = Unit
IsDescending (h ∷ hs) = Below h hs × IsDescending hs

pub Below-In : (top k : ℕ) (hs : List ℕ) → Below top hs → In k hs → k ≤ top
Below-In top k [] b i = absurd i
Below-In top k (h ∷ hs) b (inl e) = omega (arith, b.0, e)
Below-In top k (h ∷ hs) b (inr i) = Below-In top k hs b.1 i

Below-trans : (low top : ℕ) (hs : List ℕ) → low ≤ top → Below low hs → Below top hs
Below-trans low top [] le b = tt
Below-trans low top (h ∷ hs) le b = (omega (arith, b.0, le), Below-trans low top hs le b.1)

place_before :
    (h k : ℕ) (ks : List ℕ)
    → ltb h k ≡ true
    → place_descending h (k ∷ ks) ≡ k ∷ place_descending h ks
unfolding place_descending
place_before h k ks e = rw (e, place_descending)

place_here : (h k : ℕ) (ks : List ℕ) → ltb h k ≡ false → place_descending h (k ∷ ks) ≡ h ∷ k ∷ ks
unfolding place_descending
place_here h k ks e = rw (e, place_descending)

In-place_descending : (k h : ℕ) (hs : List ℕ) → In k (h ∷ hs) → In k (place_descending h hs)
unfolding place_descending
In-place_descending k h [] i = i
In-place_descending k h (j ∷ hs) i = elim (Bool-cases (ltb h j)) [
  | inr e ↦ subst (In k) (sym (place_here h j hs e)) i
  | inl e ↦ subst (In k) (sym (place_before h j hs e)) (elim i [
    | inl same ↦ inr (In-place_descending k h hs (inl same))
    | inr (inl same) ↦ inl same
    | inr (inr rest) ↦ inr (In-place_descending k h hs (inr rest))
  ])
]

place_descending-In : (k h : ℕ) (hs : List ℕ) → In k (place_descending h hs) → In k (h ∷ hs)
unfolding place_descending
place_descending-In k h [] i = i
place_descending-In k h (j ∷ hs) i = elim (Bool-cases (ltb h j)) [
  | inr e ↦ subst (In k) (place_here h j hs e) i
  | inl e ↦ elim (subst (In k) (place_before h j hs e) i) [
    | inl same ↦ inr (inl same)
    | inr rest ↦ elim (place_descending-In k h hs rest) [
      | inl same ↦ inl same
      | inr later ↦ inr (inr later)
    ]
  ]
]

pub In-sort_descending : (k : ℕ) (hs : List ℕ) → In k hs → In k (sort_descending hs)
unfolding sort_descending
In-sort_descending k [] i = i
In-sort_descending k (h ∷ hs) (inl e) = In-place_descending k h (sort_descending hs) (inl e)
In-sort_descending k (h ∷ hs) (inr i) =
    In-place_descending k h (sort_descending hs) (inr (In-sort_descending k hs i))

pub sort_descending-In : (k : ℕ) (hs : List ℕ) → In k (sort_descending hs) → In k hs
unfolding sort_descending
sort_descending-In k [] i = i
sort_descending-In k (h ∷ hs) i = elim (place_descending-In k h (sort_descending hs) i) [
  | inl e ↦ inl e
  | inr later ↦ inr (sort_descending-In k hs later)
]

Below-place_descending :
    (top h : ℕ) (hs : List ℕ) → h ≤ top → Below top hs → Below top (place_descending h hs)
unfolding place_descending
Below-place_descending top h [] le b = (le, tt)
Below-place_descending top h (j ∷ hs) le b = elim (Bool-cases (ltb h j)) [
  | inr e ↦ subst (Below top) (sym (place_here h j hs e)) (le, b)
  | inl e ↦
      subst (Below top) (sym (place_before h j hs e)) (b.0, Below-place_descending top h hs le b.1)
]

place_descending-IsDescending :
    (h : ℕ) (hs : List ℕ) → IsDescending hs → IsDescending (place_descending h hs)
unfolding place_descending
place_descending-IsDescending h [] d = (tt, tt)
place_descending-IsDescending h (j ∷ hs) d = elim (Bool-cases (ltb h j)) [
  | inr e ↦
      let le : j ≤ h = ground (arith, e) in
      subst IsDescending (sym (place_here h j hs e)) ((le, Below-trans j h hs le d.0), d)
  | inl e ↦
      let le : h ≤ j = ground (arith, e) in
      subst IsDescending (sym (place_before h j hs e))
        (Below-place_descending j h hs le d.0, place_descending-IsDescending h hs d.1)
]

pub sort_descending-IsDescending : (hs : List ℕ) → IsDescending (sort_descending hs)
unfolding sort_descending
sort_descending-IsDescending [] = tt
sort_descending-IsDescending (h ∷ hs) =
    place_descending-IsDescending h (sort_descending hs) (sort_descending-IsDescending hs)

keep_height-Below :
    (found : Option ℕ) (max_height : ℕ) (rest : List ℕ)
    → Below max_height rest
    → Below max_height (keep_height found max_height rest)
keep_height-Below none max_height rest b = b
keep_height-Below (some h) max_height rest b = elim (Bool-cases (leb h max_height)) [
  | inr e ↦ subst (λ x. Below max_height (if x then h ∷ rest else rest)) (sym e) b
  | inl e ↦
      let le : h ≤ max_height = ground (arith, e) in
      subst (λ x. Below max_height (if x then h ∷ rest else rest)) (sym e) (le, b)
]

pub heights_up_to-Below :
    (max_height : ℕ) (entries : List (Text × Bytes))
    → Below max_height (heights_up_to max_height entries)
unfolding heights_up_to
heights_up_to-Below max_height [] = tt
heights_up_to-Below max_height ((key, v) ∷ entries) =
    keep_height-Below (height_of_key key) max_height (heights_up_to max_height entries)
      (heights_up_to-Below max_height entries)

module _ {Db : Type 0} ⦃ext : External⦄ ⦃sled : Sled Db⦄ where
  abbrev pub IsRefused : ChainState Db → ℕ → Type 0
  IsRefused g k = (x : Text) × (restore_snapshot_at g k ≡ err x)

  -- A restored height is the first that is not refused, of heights in descending order.
  pub restore_first-newest :
      (g g' : ChainState Db) (height : ℕ) (hs : List ℕ)
      → IsDescending hs
      → restore_first g hs ≡ ok (g', height)
      → In height hs
        × (restore_snapshot_at g height ≡ ok g')
        × ((k : ℕ) → In k hs → height < k → IsRefused g k)
  unfolding restore_first
  restore_first-newest g g' height [] d e = cc
  restore_first-newest g g' height (h ∷ hs) d e = elim (Result-cases (restore_snapshot_at g h)) [
    | inl (next, r) ↦
        let done : ◌≡◌ {A = Result (ChainState Db × ℕ) Text} (ok (next, h)) (ok (g', height)) =
          sym (rw (r, restore_first)) ∙ e in
        let same : h ≡ height = ap (λ p. p.1) (ok-injective done) in
        let state : next ≡ g' = ap (λ p. p.0) (ok-injective done) in
        (
          inl (sym same),
          subst (λ k. restore_snapshot_at g k ≡ ok g') same (r ∙ ap ok state),
          λ k i above. elim i [
            | inl first ↦ absurd (omega (arith, first, same, above))
            | inr later ↦ absurd (omega (arith, Below-In h k hs d.0 later, same, above))
          ],
        )
    | inr (x, r) ↦
        let rest : restore_first g hs ≡ ok (g', height) = sym (rw (r, restore_first)) ∙ e in
        let (here, restored, refused) = restore_first-newest g g' height hs d.1 rest in
        (
          inr here,
          restored,
          λ k i above. elim i [
            | inl first ↦ subst (IsRefused g) (sym first) (x, r)
            | inr later ↦ refused k later above
          ],
        )
  ]

  -- Each height is at most the restored one, or its snapshot was refused.
  abbrev pub IsNewest : ChainState Db → ℕ → List ℕ → Type 0
  IsNewest g height [] = Unit
  IsNewest g height (k ∷ ks) = ((k ≤ height) ⊎ IsRefused g k) × IsNewest g height ks

  pub refused-IsNewest :
      (g : ChainState Db) (height : ℕ) (ks : List ℕ)
      → ((k : ℕ) → In k ks → height < k → IsRefused g k)
      → IsNewest g height ks
  refused-IsNewest g height [] refused = tt
  refused-IsNewest g height (k ∷ ks) refused = (
    elim (Bool-cases (ltb height k)) [
      | inl e ↦ inr (refused k (inl refl) (ground (arith, e)))
      | inr e ↦ inl (ground (arith, e))
    ],
    refused-IsNewest g height ks (λ j i above. refused j (inr i) above),
  )
