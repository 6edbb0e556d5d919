-- ===== src/Decimals.antt =====
-- Numbers in decimal: what Python's `str` and `int` do with a number that is not negative and its
-- digits.
use django_pyturso.Prelude.{
  ℕ, zero, suc, ◌+◌, ◌-◌, ◌*◌, ◌/◌, ◌%◌, ◌<◌, ◌≡◌, refl, ◌∙◌, Bool, true, false, ◌&&◌, inl, inr, [],
  ◌∷◌, Text, ltb, leb, if◌then◌else◌, arith, Bool-cases, ap,
}

abbrev pub digit : ℕ → ℕ
digit n = b'0' + n

-- The decimal digits of a number, before those of `rest`, on fuel above the number.
unfoldable pub digits : ℕ → ℕ → Text → Text
digits zero n rest = rest
digits (suc f) n rest =
    let more = digits f (n / 10) (digit (n % 10) ∷ rest) in
    if ltb n 10 then digit n ∷ rest else more

-- `str(n)`
unfoldable pub decimal : ℕ → Text
unfolding digits
decimal n = digits (suc n) n []

abbrev pub is_digit : ℕ → Bool
is_digit c = leb b'0' c && leb c b'9'

abbrev pub all_digits : Text → Bool
all_digits [] = true
all_digits (c ∷ t) = is_digit c && all_digits t

-- `part.isdigit()` for ASCII digits.
abbrev pub isdigit : Text → Bool
isdigit [] = false
isdigit (c ∷ t) = all_digits (c ∷ t)

-- `int(part)`, with the value of the digits before.
unfoldable pub int_from : ℕ → Text → ℕ
int_from value [] = value
int_from value (c ∷ t) = int_from (value * 10 + (c - b'0')) t

digits_all :
    (f n : ℕ) (rest : Text) → n < f → all_digits rest ≡ true → isdigit (digits f n rest) ≡ true
unfolding digits
digits_all zero n rest h k = ground arith
digits_all (suc f) n rest h k = elim (Bool-cases (ltb n 10)) [
  | inl small ↦ ground (arith, small, k)
  | inr large ↦
      simp large (digits_all f (n / 10) (digit (n % 10) ∷ rest) (ground arith) (ground arith))
]

int_from-digits : (f n : ℕ) (rest : Text) → n < f → int_from 0 (digits f n rest) ≡ int_from n rest
unfolding digits int_from
int_from-digits zero n rest h = ground arith
int_from-digits (suc f) n rest h = elim (Bool-cases (ltb n 10)) [
  | inl small ↦ simp small (ap (λ v. int_from v rest) (omega arith))
  | inr large ↦ simp large (
      int_from-digits f (n / 10) (digit (n % 10) ∷ rest) (ground arith)
      ∙ ap (λ v. int_from v rest) (omega arith))
]

pub isdigit-decimal : (n : ℕ) → isdigit (decimal n) ≡ true
unfolding decimal
isdigit-decimal n = digits_all (suc n) n [] (omega arith) refl

pub int_from-decimal : (n : ℕ) → int_from 0 (decimal n) ≡ n
unfolding decimal int_from
int_from-decimal n = int_from-digits (suc n) n [] (omega arith)
