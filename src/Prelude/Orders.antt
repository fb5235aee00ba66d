-- ===== src/Prelude/Orders.antt =====
-- Three-way comparisons: total orders, by a number, by a text, and one after another.
use Prim.Native.Nat.{ℕ, Ordering, compare}
use Prim.Native.Nat.Ordering.{lt, eq, gt}
use mathlib.Core.Path.{◌≡◌, refl, sym, ap}
use mathlib.Core.Logic.{◌⊎◌, inl, inr, ◌≢◌}
use native.Mathlib.Omega.{arith}
use vision_core.Prelude.Text.{Text, cmp, then as then_with, eq_of_cmp, gt_of_lt, lt_of_gt, lt_trans}

pub record IsOrder {A : Type 0} (c : A → A → Ordering) : Type 0 where
  pub flip_lt : (a b : A) → c a b ≡ lt → c b a ≡ gt
  pub flip_gt : (a b : A) → c a b ≡ gt → c b a ≡ lt
  pub chain : (a b d : A) → c a b ≡ lt → c b d ≡ lt → c a d ≡ lt
  pub same_left : (a b d : A) → c a b ≡ eq → c a d ≡ c b d
  pub same_right : (a b d : A) → c b d ≡ eq → c a b ≡ c a d

Ordering-cases : (o : Ordering) → (o ≡ lt) ⊎ ((o ≡ eq) ⊎ (o ≡ gt))
Ordering-cases lt = inl refl
Ordering-cases eq = inr (inl refl)
Ordering-cases gt = inr (inr refl)

module _ {A : Type 0} where
  pub IsOrder-number : (key : A → ℕ) → IsOrder (λ (a b : A). compare (key a) (key b))
  IsOrder-number key = record {
    flip_lt = λ a b e. ground (arith, e);
    flip_gt = λ a b e. ground (arith, e);
    chain = λ a b d e f. ground (arith, e, f);
    same_left = λ a b d e. ground (arith, e);
    same_right = λ a b d e. ground (arith, e);
  }

  -- From the greatest text to the least.
  pub IsOrder-text : (key : A → Text) → IsOrder (λ (a b : A). cmp (key b) (key a))
  IsOrder-text key = record {
    flip_lt = λ a b e. gt_of_lt (key b) (key a) e;
    flip_gt = λ a b e. lt_of_gt (key b) (key a) e;
    chain = λ a b d e f. lt_trans (key d) (key b) (key a) f e;
    same_left = λ a b d e. ap (cmp (key d)) (sym (eq_of_cmp (key b) (key a) e));
    same_right = λ a b d e. ap (λ x. cmp x (key a)) (sym (eq_of_cmp (key d) (key b) e));
  }

  module _ (c d : A → A → Ordering) (o : IsOrder c) (p : IsOrder d) where
    abbrev both : A → A → Ordering
    both a b = then_with (c a b) (d a b)

    both-chain : (a b e : A) → both a b ≡ lt → both b e ≡ lt → both a e ≡ lt
    both-chain a b e h k =
        ground (arith, o.chain a b e, p.chain a b e, o.same_left a b e, o.same_right a b e)

    pub IsOrder-then : IsOrder (λ (a b : A). then_with (c a b) (d a b))
    IsOrder-then = record {
      flip_lt = λ a b h. ground (
        arith,
        o.flip_lt a b,
        o.flip_lt b a,
        o.flip_gt a b,
        o.flip_gt b a,
        p.flip_lt a b,
        p.flip_gt a b,
      );
      flip_gt = λ a b h. ground (
        arith,
        o.flip_lt a b,
        o.flip_lt b a,
        o.flip_gt a b,
        o.flip_gt b a,
        p.flip_lt a b,
        p.flip_gt a b,
      );
      chain = both-chain;
      same_left = λ a b e h. ground (arith, h, o.same_left a b e, p.same_left a b e);
      same_right = λ a b e h. ground (arith, h, o.same_right a b e, p.same_right a b e);
    }

  -- What is not greater than its successors: the order read as `at most`.
  pub at_most_trans :
      (c : A → A → Ordering) → IsOrder c → (a b d : A) → c a b ≢ gt → c b d ≢ gt → c a d ≢ gt
  at_most_trans c o a b d h k =
      ground (arith, o.chain a b d, o.same_left a b d, o.same_right a b d, h, k)
