-- ===== src/Store/Digits.antt =====
-- The numbers that chain/storage.rs writes as text and reads back.
use vision_core.Prelude.{
  ℕ, zero, suc, ◌+◌, ◌-◌, ◌*◌, ◌/◌, ◌%◌, ◌≡◌, ◌≤◌, ◌<◌, refl, ◌∙◌, sym, ap, subst, true, false,
  Option, some, [], ◌∷◌, ◌++◌, ltb, Bool-cases, inl, inr, arith,
}
use vision_core.Prelude.Text.{Text}
use vision_core.Prelude.Bytes.{u64_mod}
use vision_core.Store.Decimal.{digits, decimal}
use vision_core.Store.Reads.{Expect, first_byte, next_byte, scan_utf8, parse_digits, parse_u64}

abbrev pub AreDigits : Text → Type 0
AreDigits [] = Unit
AreDigits (c ∷ cs) = ((b'0' ≤ c) × (c ≤ b'9')) × AreDigits cs

AreDigits-append : (s t : Text) → AreDigits s → AreDigits t → AreDigits (s ++ t)
AreDigits-append [] t a b = b
AreDigits-append (c ∷ s) t a b = (a.0, AreDigits-append s t a.1 b)

last_digit : (n : ℕ) → AreDigits ((b'0' + n % 10) ∷ [])
last_digit n = ((omega arith, omega arith), tt)

digits_one : (fuel n : ℕ) → ltb n 10 ≡ true → digits (suc fuel) n ≡ (b'0' + n) ∷ []
unfolding digits
digits_one fuel n e = rw (e, digits)

digits_more :
    (fuel n : ℕ)
    → ltb n 10 ≡ false
    → digits (suc fuel) n ≡ digits fuel (n / 10) ++ (b'0' + n % 10) ∷ []
unfolding digits
digits_more fuel n e = rw (e, digits)

digits-AreDigits : (fuel n : ℕ) → AreDigits (digits fuel n)
unfolding digits
digits-AreDigits zero n = last_digit n
digits-AreDigits (suc fuel) n = elim (Bool-cases (ltb n 10)) [
  | inl e ↦
      let small : n < 10 = ground (arith, e) in
      subst AreDigits (sym (digits_one fuel n e)) ((omega arith, omega (arith, small)), tt)
  | inr e ↦
      subst AreDigits (sym (digits_more fuel n e))
        (AreDigits-append (digits fuel (n / 10)) _ (digits-AreDigits fuel (n / 10)) (last_digit n))
]

abbrev start : Expect
start = record { remaining = 0; low = 0; high = 0 }

digit-next : (c : ℕ) → c ≤ b'9' → next_byte start c ≡ some start
unfolding next_byte first_byte
digit-next c le = ground (arith, le)

pub scan_utf8-AreDigits : (s : Text) → AreDigits s → scan_utf8 start s ≡ true
unfolding scan_utf8
scan_utf8-AreDigits [] a = refl
scan_utf8-AreDigits (c ∷ s) a = rw (digit-next c a.0.1, scan_utf8) (scan_utf8-AreDigits s a.1)

some-injective : {a b : ℕ} → ◌≡◌ {A = Option ℕ} (some a) (some b) → a ≡ b
some-injective e = cc

step_digit :
    (acc c : ℕ) (cs : Text)
    → b'0' ≤ c
    → c ≤ b'9'
    → acc * 10 + (c - b'0') < u64_mod
    → parse_digits acc (c ∷ cs) ≡ parse_digits (acc * 10 + (c - b'0')) cs
unfolding parse_digits
step_digit acc c cs lo hi fits = ground (arith, lo, hi, fits)

step_fits :
    (acc c v : ℕ) (cs : Text) → parse_digits acc (c ∷ cs) ≡ some v → acc * 10 + (c - b'0') < u64_mod
unfolding parse_digits
step_fits acc c v cs h = ground (arith, h)

parse_digits-append :
    (acc v : ℕ) (s t : Text)
    → AreDigits s
    → parse_digits acc s ≡ some v
    → parse_digits acc (s ++ t) ≡ parse_digits v t
unfolding parse_digits
parse_digits-append acc v [] t a h = ap (λ x. parse_digits x t) (some-injective h)
parse_digits-append acc v (c ∷ s) t a h =
    let fits = step_fits acc c v s h in
    step_digit acc c (s ++ t) a.0.0 a.0.1 fits
    ∙ parse_digits-append (acc * 10 + (c - b'0')) v s t a.1
        (sym (step_digit acc c s a.0.0 a.0.1 fits) ∙ h)

parse_last :
    (acc n : ℕ)
    → acc * 10 + n % 10 < u64_mod
    → parse_digits acc ((b'0' + n % 10) ∷ []) ≡ some (acc * 10 + n % 10)
unfolding parse_digits
parse_last acc n fits =
    step_digit acc (b'0' + n % 10) [] (omega arith) (omega arith) (omega (arith, fits))
    ∙ ap some (omega arith)

parse_digits-digits :
    (fuel n : ℕ) → n ≤ fuel → n < u64_mod → parse_digits 0 (digits fuel n) ≡ some n
unfolding digits
parse_digits-digits zero n le fits =
    parse_last 0 n (omega (arith, le)) ∙ ap some (omega (arith, le))
parse_digits-digits (suc fuel) n le fits = elim (Bool-cases (ltb n 10)) [
  | inl e ↦
      let small : n < 10 = ground (arith, e) in
      let same : n ≡ n % 10 = omega (arith, small) in
      ap (parse_digits 0) (digits_one fuel n e ∙ ap (λ x. (b'0' + x) ∷ []) same)
      ∙ parse_last 0 n (omega (arith, small))
      ∙ ap some (omega (arith, small))
  | inr e ↦
      let large : 10 ≤ n = ground (arith, e) in
      ap (parse_digits 0) (digits_more fuel n e)
      ∙ parse_digits-append 0 (n / 10) (digits fuel (n / 10)) _ (digits-AreDigits fuel (n / 10))
          (parse_digits-digits fuel (n / 10) (omega (arith, le, large)) (omega (arith, fits)))
      ∙ parse_last (n / 10) n (omega (arith, fits))
      ∙ ap some (omega arith)
]

abbrev IsFilled : Text → Type 0
IsFilled [] = ⊥
IsFilled (c ∷ cs) = Unit

append-IsFilled : (s : Text) (c : ℕ) → IsFilled (s ++ c ∷ [])
append-IsFilled [] c = tt
append-IsFilled (d ∷ s) c = tt

digits-IsFilled : (fuel n : ℕ) → IsFilled (digits fuel n)
unfolding digits
digits-IsFilled zero n = tt
digits-IsFilled (suc fuel) n = elim (Bool-cases (ltb n 10)) [
  | inl e ↦ subst IsFilled (sym (digits_one fuel n e)) tt
  | inr e ↦ subst IsFilled (sym (digits_more fuel n e)) (append-IsFilled (digits fuel (n / 10)) _)
]

parse_u64-AreDigits : (s : Text) → IsFilled s → AreDigits s → parse_u64 s ≡ parse_digits 0 s
unfolding parse_u64
parse_u64-AreDigits [] f a = absurd f
parse_u64-AreDigits (c ∷ []) f a = ground (arith, a.0.0)
parse_u64-AreDigits (c ∷ d ∷ s) f a = ground (arith, a.0.0)

pub decimal-AreDigits : (n : ℕ) → AreDigits (decimal n)
unfolding decimal
decimal-AreDigits n = digits-AreDigits n n

-- A 64-bit number that is written in decimal is parsed back.
pub parse_u64-decimal : (n : ℕ) → n < u64_mod → parse_u64 (decimal n) ≡ some n
unfolding decimal
parse_u64-decimal n fits =
    parse_u64-AreDigits (digits n n) (digits-IsFilled n n) (digits-AreDigits n n)
    ∙ parse_digits-digits n n (omega arith) fits
