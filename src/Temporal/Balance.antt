-- ===== src/Temporal/Balance.antt =====
-- The SQL that the temporal methods answer has as many placeholders as parameters.
use mathlib.Core.Path.{subst, sym}
use django_pyturso.Exec.{Answer, ok, raised, not_supported}
use django_pyturso.Prelude.{
  ◌+◌, ◌≡◌, refl, inl, inr, Bool, true, false, Option, List, ◌++◌, Text, codes, text_eq, contains,
  length, length-append, arith, Bool-cases,
}
use django_pyturso.Temporal.Fragments.{
  closes, literal-IsFragment, hole_then-IsFragment, wrap-IsFragment,
}
use django_pyturso.Temporal.Rounds.{IsFragment, passes}
use django_pyturso.Temporal.{
  wrap, format_time_extension, unless_null, time_trunc, datetime_lookups, time_lookups, Statement,
  with_params, date_trunc, at_midnight, datetime_trunc, time_trunc_sql, Request, temporal_sql,
  in_timezone, date_extract, time_extract, datetime_extract, date_truncation, datetime_truncation,
  time_truncation, cast_date, cast_time, refuses_timezone,
}
use django_pyturso.Temporal.Pieces.{
  all_pass-contains, HasHoles, extract_sql-HasHoles, quarter_sql-IsFragment, week_sql-IsFragment,
  time_extension_input-IsFragment, format_time_extension-IsFragment, unless_null-IsFragment,
  time_trunc-IsFragment,
}

-- The SQL is a fragment with as many placeholders as there are parameters; an exception is the one
-- for what is not supported.
pub data IsBalanced {P : Type 0} : Statement P → Type 0 where
  balanced :
      (sql : Text) (params : List P)
      → IsFragment (length params) sql
      → IsBalanced (ok (sql, params))
  refused : IsBalanced (raised not_supported)

module _ {P : Type 0} (sql : Text) (params : List P)
    (fragment : IsFragment (length params) sql) where
  twice :
      (t : Text)
      → IsFragment (length params + length params) t
      → IsBalanced (ok (t, params ++ params))
  twice t f = balanced t _ (subst (λ m. IsFragment m t) (sym (length-append params params)) f)

  thrice :
      (t : Text)
      → IsFragment (length params + (length params + length params)) t
      → IsBalanced (ok (t, params ++ (params ++ params)))
  thrice t f = balanced t _ (
      subst (λ m. IsFragment m t)
        (omega (arith, length-append params params, length-append params (params ++ params))) f)

  once :
      (a b : Text)
      → passes false false a ≡ true
      → closes b ≡ true
      → IsBalanced (ok (wrap a sql b, params))
  once a b p q =
      balanced (wrap a sql b) params (wrap-IsFragment (length params) a sql b p q fragment)

  date_trunc-IsBalanced : (lookup_type : Text) → IsBalanced (date_trunc lookup_type sql params)
  unfolding date_trunc passes
  date_trunc-IsBalanced lookup_type = elim (Bool-cases (text_eq lookup_type (codes "year"))) [
    | inl e ↦ simp e (once _ _ refl refl)
    | inr y ↦ elim (Bool-cases (text_eq lookup_type (codes "quarter"))) [
      | inl e ↦ simp (y, e) (thrice _ (quarter_sql-IsFragment _ sql fragment))
      | inr q ↦ elim (Bool-cases (text_eq lookup_type (codes "month"))) [
        | inl e ↦ simp (y, q, e) (once _ _ refl refl)
        | inr m ↦ elim (Bool-cases (text_eq lookup_type (codes "week"))) [
          | inl e ↦ simp (y, q, m, e) (twice _ (week_sql-IsFragment _ sql fragment))
          | inr w ↦ elim (Bool-cases (text_eq lookup_type (codes "day"))) [
            | inl e ↦ simp (y, q, m, w, e) (once _ _ refl refl)
            | inr d ↦ simp (y, q, m, w, d) refused
          ]
        ]
      ]
    ]
  ]

  with_params-IsBalanced :
      (a : Answer Text) → HasHoles (length params) a → IsBalanced (with_params params a)
  with_params-IsBalanced (ok t) h = balanced t params h
  with_params-IsBalanced (raised x) h = rw h refused

  at_midnight-IsBalanced : (r : Statement P) → IsBalanced r → IsBalanced (at_midnight r)
  unfolding passes
  at_midnight-IsBalanced _ (balanced t ps f) = balanced _ ps (
      subst (λ m. IsFragment m (t ++ codes " || ' 00:00:00'")) (omega arith)
        (hole_then-IsFragment 0 (length ps) t (codes " || ' 00:00:00'") f refl
          (literal-IsFragment (codes " || ' 00:00:00'") refl)))
  at_midnight-IsBalanced _ refused = refused

  -- `unless_null` over a truncated expression.
  truncated-IsBalanced :
      (lookup_type inner : Text) (b : Bool)
      → closes (codes ", '" ++ (lookup_type ++ codes "')")) ≡ true
      → IsFragment (length params) inner
      → IsBalanced (
          ok (
            unless_null sql (format_time_extension b (time_trunc lookup_type inner)),
            params ++ params,
          ))
  truncated-IsBalanced lookup_type inner b h f = twice _ (
      unless_null-IsFragment _ sql fragment _
        (format_time_extension-IsFragment _ _ (time_trunc-IsFragment _ inner f lookup_type h) b))

  datetime_trunc-IsBalanced :
      (lookup_type : Text) → IsBalanced (datetime_trunc lookup_type sql params)
  unfolding datetime_trunc passes
  datetime_trunc-IsBalanced lookup_type = elim (Bool-cases (text_eq lookup_type (codes "week"))) [
    | inl e ↦ simp e (at_midnight-IsBalanced _ (date_trunc-IsBalanced (codes "week")))
    | inr w ↦ elim (Bool-cases (contains lookup_type datetime_lookups)) [
      | inl e ↦
          simp (w, e)
            (truncated-IsBalanced lookup_type _ false
              (all_pass-contains (λ l. closes (codes ", '" ++ (l ++ codes "')"))) lookup_type
                datetime_lookups refl e)
              (time_extension_input-IsFragment _ sql fragment false))
      | inr n ↦ simp (w, n) refused
    ]
  ]

  time_trunc_sql-IsBalanced :
      (lookup_type : Text) → IsBalanced (time_trunc_sql lookup_type sql params)
  unfolding time_trunc_sql passes
  time_trunc_sql-IsBalanced lookup_type = elim (Bool-cases (contains lookup_type time_lookups)) [
    | inl e ↦ simp e (
        truncated-IsBalanced lookup_type _ true
          (all_pass-contains (λ l. closes (codes ", '" ++ (l ++ codes "')"))) lookup_type
            time_lookups refl e)
          (time_extension_input-IsFragment _ _
            (wrap-IsFragment _ (codes "time(") sql (codes ")") refl refl fragment) true))
    | inr n ↦ simp n refused
  ]

  module _ (lower : Text → Text) (timezone_name : Text) where
    in_timezone-IsBalanced :
        (tzname : Option Text) (r : Statement P)
        → IsBalanced r
        → IsBalanced (in_timezone lower timezone_name tzname r)
    in_timezone-IsBalanced tzname r h = elim (Bool-cases (refuses_timezone timezone_name tzname)) [
      | inl e ↦ simp e refused
      | inr e ↦ simp e h
    ]

    -- Whatever temporal method is called, on an expression that is a piece of SQL with as many
    -- placeholders as it has parameters: the SQL that is answered is such a piece again, with as many
    -- placeholders as there are parameters in the answer. The conversion to the driver's placeholders
    -- passes over it and is in plain SQL behind it. A call that is refused raises
    -- `NotSupportedError`.
    pub temporal_sql-IsBalanced :
        (request : Request) → IsBalanced (temporal_sql lower timezone_name request sql params)
    unfolding temporal_sql passes
    temporal_sql-IsBalanced (date_extract l) =
        with_params-IsBalanced _ (extract_sql-HasHoles _ sql fragment (lower l))
    temporal_sql-IsBalanced (time_extract l) =
        with_params-IsBalanced _ (extract_sql-HasHoles _ sql fragment (lower l))
    temporal_sql-IsBalanced (datetime_extract l tzname) =
        in_timezone-IsBalanced tzname _
          (with_params-IsBalanced _ (extract_sql-HasHoles _ sql fragment (lower l)))
    temporal_sql-IsBalanced (date_truncation l tzname) =
        in_timezone-IsBalanced tzname _ (date_trunc-IsBalanced (lower l))
    temporal_sql-IsBalanced (datetime_truncation l tzname) =
        in_timezone-IsBalanced tzname _ (datetime_trunc-IsBalanced (lower l))
    temporal_sql-IsBalanced (time_truncation l tzname) =
        in_timezone-IsBalanced tzname _ (time_trunc_sql-IsBalanced (lower l))
    temporal_sql-IsBalanced (cast_date tzname) =
        in_timezone-IsBalanced tzname _ (once _ _ refl refl)
    temporal_sql-IsBalanced (cast_time tzname) = in_timezone-IsBalanced tzname _ (
        twice _ (
          unless_null-IsFragment _ sql fragment _ (
            format_time_extension-IsFragment _ _
              (time_extension_input-IsFragment _ sql fragment false) true)))
