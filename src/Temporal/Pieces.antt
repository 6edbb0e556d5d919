-- ===== src/Temporal/Pieces.antt =====
-- The pieces of SQL that the temporal methods build, as fragments.
use django_pyturso.Exec.{Answer, ok, raised, not_supported}
use django_pyturso.Prelude.{
  ℕ, ◌+◌, ◌≡◌, refl, inl, inr, Bool, true, false, ◌&&◌, Option, none, some, List, [], ◌∷◌, ◌++◌,
  Text, codes, text_eq, text_eq_iff, contains, arith, Bool-cases, if◌then◌else◌,
}
use django_pyturso.Temporal.Fragments.{closes, starts-wrap, wrap-IsFragment, wrap_then-IsFragment}
use django_pyturso.Temporal.Rounds.{IsFragment, passes}
use django_pyturso.Temporal.{
  formats, get_format, extracted, extract_with, extract_sql, quarter_sql, week_sql,
  time_extension_input, iso_format, format_time_extension, unless_null, time_trunc,
}

-- A test that all texts of a list pass, a text of the list passes.
abbrev pub all_pass : (Text → Bool) → List Text → Bool
all_pass p [] = true
all_pass p (x ∷ xs) = p x && all_pass p xs

pub all_pass-contains :
    (p : Text → Bool) (x : Text) (xs : List Text)
    → all_pass p xs ≡ true
    → contains x xs ≡ true
    → p x ≡ true
unfolding contains
all_pass-contains p x [] h k = ground arith
all_pass-contains p x (y ∷ ys) h k = elim (Bool-cases (text_eq x y)) [
  | inl same ↦ rw ((text_eq_iff x y).0 same) (ground (arith, h))
  | inr other ↦ all_pass-contains p x ys (ground (arith, h)) (ground (arith, k, other))
]

abbrev all_formats : (Text → Bool) → List (Text × Text) → Bool
all_formats p [] = true
all_formats p ((_, f) ∷ rest) = p f && all_formats p rest

all_formats-get_format :
    (p : Text → Bool) (key f : Text) (fs : List (Text × Text))
    → all_formats p fs ≡ true
    → get_format key fs ≡ some f
    → p f ≡ true
unfolding get_format
all_formats-get_format p key f [] h k = ground arith
all_formats-get_format p key f ((x, g) ∷ rest) h k = elim (Bool-cases (text_eq key x)) [
  | inl same ↦ let e : g ≡ f = ground (arith, k, same) in rw (← e) (ground (arith, h))
  | inr other ↦ all_formats-get_format p key f rest (ground (arith, h)) (ground (arith, k, other))
]

abbrev pub HasHoles : ℕ → Answer Text → Type 0
HasHoles n (ok sql) = IsFragment n sql
HasHoles n (raised x) = x ≡ not_supported

module _ (n : ℕ) (sql : Text) (fragment : IsFragment n sql) where
  extracted-IsFragment :
      (f : Text)
      → passes false false (codes "CAST(strftime('" ++ (f ++ codes "', ")) ≡ true
      → IsFragment n (extracted f sql)
  unfolding passes
  extracted-IsFragment f h =
      wrap-IsFragment n (codes "CAST(strftime('" ++ (f ++ codes "', ")) sql (codes ") AS INTEGER)")
        h refl fragment

  test-HasHoles :
      (b : Bool) (x y : Answer Text) → HasHoles n x → HasHoles n y → HasHoles n (if b then x else y)
  test-HasHoles true x y h k = h
  test-HasHoles false x y h k = k

  extract_with-HasHoles :
      (lookup_type : Text) (o : Option Text)
      → ((f : Text)
          → o ≡ some f
          → passes false false (codes "CAST(strftime('" ++ (f ++ codes "', ")) ≡ true)
      → HasHoles n (extract_with lookup_type sql o)
  unfolding passes
  extract_with-HasHoles lookup_type none h = refl
  extract_with-HasHoles lookup_type (some f) h =
      test-HasHoles (text_eq lookup_type (codes "week_day")) _ _
        (wrap-IsFragment n (codes "(") (extracted f sql) (codes " + 1)") refl refl
          (extracted-IsFragment f (h f refl)))
        (extracted-IsFragment f (h f refl))

  pub extract_sql-HasHoles : (lookup_type : Text) → HasHoles n (extract_sql lookup_type sql)
  unfolding extract_sql passes
  extract_sql-HasHoles lookup_type =
      test-HasHoles (text_eq lookup_type (codes "quarter")) _ _
        (wrap-IsFragment n (codes "((CAST(strftime('%%m', ") sql (codes ") AS INTEGER) + 2) / 3)")
          refl refl fragment)
        (extract_with-HasHoles lookup_type (get_format lookup_type formats) (λ f e.
          all_formats-get_format
            (λ g. passes false false (codes "CAST(strftime('" ++ (g ++ codes "', "))) lookup_type f
            formats refl e))

  pub quarter_sql-IsFragment : IsFragment (n + (n + n)) (quarter_sql sql)
  unfolding passes
  quarter_sql-IsFragment =
      wrap_then-IsFragment n (n + n) _ sql _ refl (starts-wrap _ sql _ refl) fragment (
        wrap_then-IsFragment n n _ sql _ refl (starts-wrap _ _ _ refl) fragment
          (wrap-IsFragment n _ sql _ refl refl fragment))

  pub week_sql-IsFragment : IsFragment (n + n) (week_sql sql)
  unfolding passes
  week_sql-IsFragment =
      wrap_then-IsFragment n n _ sql _ refl (starts-wrap _ _ _ refl) fragment
        (wrap-IsFragment n _ sql _ refl refl fragment)

  pub time_extension_input-IsFragment : (b : Bool) → IsFragment n (time_extension_input b sql)
  unfolding passes
  time_extension_input-IsFragment true = wrap-IsFragment n _ sql _ refl refl fragment
  time_extension_input-IsFragment false = wrap-IsFragment n _ sql _ refl refl fragment

  pub format_time_extension-IsFragment : (b : Bool) → IsFragment n (format_time_extension b sql)
  unfolding passes
  format_time_extension-IsFragment false = wrap-IsFragment n _ sql _ refl refl fragment
  format_time_extension-IsFragment true =
      wrap-IsFragment n _ (iso_format sql) _ refl refl
        (wrap-IsFragment n _ sql _ refl refl fragment)

  pub unless_null-IsFragment :
      (result : Text) → IsFragment n result → IsFragment (n + n) (unless_null sql result)
  unfolding passes
  unless_null-IsFragment result f =
      wrap_then-IsFragment n n _ sql _ refl (starts-wrap _ _ _ refl) fragment
        (wrap-IsFragment n _ result _ refl refl f)

  pub time_trunc-IsFragment :
      (lookup_type : Text)
      → closes (codes ", '" ++ (lookup_type ++ codes "')")) ≡ true
      → IsFragment n (time_trunc lookup_type sql)
  unfolding passes
  time_trunc-IsFragment lookup_type h = wrap-IsFragment n _ sql _ refl h fragment
