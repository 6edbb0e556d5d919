-- ===== src/Examples/Values.antt =====
use Prim.Native.Nat.{ℕ}
use django_pyturso.Batches.Bounds.{Quotes, AreQuoted, quote_params-AreQuoted}
use django_pyturso.Batches.{
  Field, single, composite, bulk_batch_size, slices, QuoteCalls, quote_params,
}
use django_pyturso.Exec.{ok, raised, not_supported}
use django_pyturso.FieldTypes.{get_field_size, lookup_field}
use django_pyturso.Prelude.{
  ℕ, zero, suc, ◌≡◌, refl, ap, sym, Bool, true, none, some, List, [], ◌∷◌, map, codes, text_eq,
}
use django_pyturso.Temporal.Balance.{IsBalanced, temporal_sql-IsBalanced}
use django_pyturso.Temporal.Fragments.{placeholder-IsFragment}
use django_pyturso.Temporal.{wrap, temporal_sql, date_truncation, date_extract, cast_date}

-- SQL for dates, batches of parameters and column types.

-- A driver that is open and quotes a number as itself.
abbrev quoting : QuoteCalls
quoting = record {
  P = ℕ;
  Q = ℕ;
  D = Bool;
  is_open = λ d. d;
  open_cursor = λ d. (ok tt, d);
  query = λ sql params d. (ok (some params), d);
  close_cursor = λ d. (ok tt, d);
  format_sequence = λ sql params. ok sql;
  format_mapping = λ sql params. ok sql;
}

map_id : (xs : List ℕ) → map (λ x. x) xs ≡ xs
map_id [] = refl
map_id (x ∷ xs) = ap (◌∷◌ x) (map_id xs)

quoting-Quotes : Quotes quoting (λ n. n)
quoting-Quotes = record {
  opens = λ d h. refl;
  open_open = λ d h. h;
  quotes = λ d params h p b. ap (λ xs. ok (some xs)) (sym (map_id params));
  open_query = λ d params h. h;
  closes = λ d h. refl;
  open_close = λ d h. h;
}

abbrev numbers : ℕ → List ℕ
numbers zero = []
numbers (suc n) = n ∷ numbers n

quote_params-AreQuoted_example :
    AreQuoted quoting (λ n. n) quoting-Quotes (numbers 3) (quote_params quoting (numbers 3) true)
quote_params-AreQuoted_example =
    quote_params-AreQuoted quoting (λ n. n) quoting-Quotes (numbers 3) true refl

abbrev key_and_name : List Field
key_and_name = composite 2 ∷ single ∷ []

batches : bulk_batch_size 1000 key_and_name 5 ≡ 333
unfolding bulk_batch_size
batches = refl

slices_of_five : slices 5 2 (numbers 5) ≡ (4 ∷ 3 ∷ []) ∷ (2 ∷ 1 ∷ []) ∷ (0 ∷ []) ∷ []
unfolding slices
slices_of_five = refl

abbrev one_param : List ℕ
one_param = 1 ∷ []

temporal_sql-IsBalanced_example : IsBalanced (
    temporal_sql
      (λ t. t)
      (codes "UTC")
      (date_truncation (codes "quarter") none)
      (codes "%s")
      one_param)
temporal_sql-IsBalanced_example =
    temporal_sql-IsBalanced (codes "%s") one_param placeholder-IsFragment (λ t. t) (codes "UTC")
      (date_truncation (codes "quarter") none)

extract_year :
    temporal_sql {P = ℕ} (λ t. t) (codes "UTC") (date_extract (codes "year")) (codes "%s") (7 ∷ [])
    ≡ ok (codes "CAST(strftime('%%Y', %s) AS INTEGER)", 7 ∷ [])
unfolding temporal_sql text_eq wrap
extract_year = refl

refuses_other_zone :
    temporal_sql {P = ℕ} (λ t. t) (codes "UTC") (cast_date (some (codes "CET"))) (codes "d") []
    ≡ raised not_supported
unfolding temporal_sql text_eq
refuses_other_zone = refl

size_of_char : get_field_size (codes " CHAR ( 12 ) ") ≡ some 12
unfolding get_field_size
size_of_char = refl

unsigned_type : lookup_field (codes "INTEGER UNSIGNED") ≡ codes "PositiveIntegerField"
unfolding lookup_field text_eq
unsigned_type = refl
