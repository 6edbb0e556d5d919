-- ===== src/FieldTypes/RoundTrip.antt =====
-- The declared type of a `CharField` reads back.
use django_pyturso.Decimals.{
  decimal, is_digit, all_digits, isdigit, int_from, isdigit-decimal, int_from-decimal,
}
use django_pyturso.FieldTypes.{
  get_varchar_column, get_field_size, read_size, span_digits, lookup_field,
}
use django_pyturso.Prelude.{
  ℕ, ◌≡◌, refl, ap, ◌∙◌, true, false, Option, none, some, [], ◌∷◌, ◌++◌, Text, codes, arith,
  text_eq,
}

span_digits-append :
    (ds : Text) (c : ℕ) (rest : Text)
    → all_digits ds ≡ true
    → is_digit c ≡ false
    → span_digits (ds ++ c ∷ rest) ≡ (ds, c ∷ rest)
unfolding span_digits
span_digits-append [] c rest h k = ground (arith, k)
span_digits-append (d ∷ ds) c rest h k = ground (arith, k, span_digits-append ds c rest)

-- The digits of a size, with what stands before and behind them in the type.
read_size-isdigit :
    (ds : Text)
    → isdigit ds ≡ true
    → read_size (some (b'(' ∷ (ds ++ codes ")"))) ≡ some (int_from 0 ds)
unfolding read_size
read_size-isdigit [] h = ground arith
read_size-isdigit (d ∷ ds) h = ground (arith, span_digits-append (d ∷ ds) b')' [] h refl)

-- The column type that the backend declares for a `CharField` is read back by the introspection as a
-- `CharField` with the same maximal length, and as one without a maximal length if it has none.
pub get_field_size-get_varchar_column :
    (max_length : Option ℕ)
    → (get_field_size (get_varchar_column max_length) ≡ max_length)
      × (lookup_field (get_varchar_column max_length) ≡ codes "CharField")
unfolding get_field_size get_varchar_column lookup_field text_eq
get_field_size-get_varchar_column none = (refl, refl)
get_field_size-get_varchar_column (some n) =
    (read_size-isdigit (decimal n) (isdigit-decimal n) ∙ ap some (int_from-decimal n), refl)
