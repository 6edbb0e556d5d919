-- ===== src/Constraints/Columns.antt =====
-- The columns that the parser reports for a `CHECK` constraint.
use django_pyturso.Constraints.Table.{
  ConstraintDict, fromkeys, check_constraint, parse_definition, finish_definition,
}
use django_pyturso.Constraints.{
  SqlTokens, Parser, initial, column_by_name, classify, read_name, read_unique, read_column,
  settle_pending, read_candidate, read_operand, read_check, read_definition, check_unless, step,
  run, next_depth, is_empty,
}
use django_pyturso.Exec.{Answer, ok, raised}
use django_pyturso.Identifiers.{identifier_key, unquote_identifier}
use django_pyturso.Prelude.{
  if◌then◌else◌, ◌∙◌, is_some, ◌≡◌, refl, inl, inr, Bool, true, false, not, ◌&&◌, Option, none,
  some, List, [], ◌∷◌, ◌++◌, Text, contains, text_eq_refl, arith, Bool-cases, Option-cases,
}

-- Every name is one of the columns.
abbrev pub all_in : List Text → List Text → Bool
all_in columns [] = true
all_in columns (x ∷ xs) = contains x columns && all_in columns xs

abbrev pending_in : List Text → Option Text → Bool
pending_in columns none = true
pending_in columns (some c) = contains c columns

abbrev knows : List Text → Parser → Bool
knows columns p = all_in columns p.check_columns && pending_in columns p.check_pending_column

-- No name occurs twice, and none is in `seen`.
abbrev pub all_new : List Text → List Text → Bool
all_new seen [] = true
all_new seen (x ∷ xs) = not (contains x seen) && all_new (x ∷ seen) xs

all_in-append :
    (columns xs : List Text) (y : Text)
    → all_in columns (xs ++ y ∷ []) ≡ (all_in columns xs && contains y columns)
all_in-append columns [] y = ground arith
all_in-append columns (x ∷ xs) y = ground (arith, all_in-append columns xs y)

pending_in-column_by_name :
    (key : Text) (columns : List Text) → pending_in columns (column_by_name key columns) ≡ true
unfolding column_by_name contains
pending_in-column_by_name key [] = refl
pending_in-column_by_name key (c ∷ cs) = elim (Option-cases (column_by_name key cs)) [
  | inl e ↦ ground (arith, e, text_eq_refl c)
  | inr (d, e) ↦ ground (arith, e, pending_in-column_by_name key cs)
]

fromkeys-all_new : (seen xs : List Text) → all_new seen (fromkeys seen xs) ≡ true
unfolding fromkeys
fromkeys-all_new seen [] = refl
fromkeys-all_new seen (x ∷ xs) =
    ground (arith, fromkeys-all_new seen xs, fromkeys-all_new (x ∷ seen) xs)

fromkeys-all_in :
    (columns seen xs : List Text)
    → all_in columns xs ≡ true
    → all_in columns (fromkeys seen xs) ≡ true
unfolding fromkeys
fromkeys-all_in columns seen [] h = refl
fromkeys-all_in columns seen (x ∷ xs) h =
    ground (arith, fromkeys-all_in columns seen xs, fromkeys-all_in columns (x ∷ seen) xs)

module _ (tokens : SqlTokens) (columns : List Text) where
  open tokens use {Token, value}

  knows-read_unique :
      (t : Token) (p : Parser) → knows columns (read_unique tokens columns t p).0 ≡ knows columns p
  unfolding read_unique
  knows-read_unique t p = ground arith

  knows-read_column :
      (t : Token) (p : Parser) → knows columns (read_column tokens columns t p) ≡ knows columns p
  unfolding read_column
  knows-read_column t p = ground arith

  settle_pending-knows :
      (t : Token) (p : Parser)
      → knows columns p ≡ true
      → knows columns (settle_pending tokens columns t p) ≡ true
  unfolding settle_pending
  settle_pending-knows t p h = elim (Option-cases p.check_pending_column) [
    | inl e ↦ ground (arith, e)
    | inr (c, e) ↦ ground (arith, e, all_in-append columns p.check_columns c)
  ]

  read_candidate-knows :
      (t : Token) (p : Parser)
      → knows columns p ≡ true
      → knows columns (read_candidate tokens columns t p) ≡ true
  unfolding read_candidate
  read_candidate-knows t p h =
      ground
        (arith, pending_in-column_by_name (identifier_key (unquote_identifier (value t))) columns)

  read_operand-knows :
      (t : Token) (p : Parser)
      → knows columns p ≡ true
      → knows columns (read_operand tokens columns t p) ≡ true
  unfolding read_operand
  read_operand-knows t p h = ground (arith, read_candidate-knows t p h)

  read_check-knows :
      (t : Token) (p : Parser)
      → knows columns p ≡ true
      → knows columns (read_check tokens columns t p) ≡ true
  unfolding read_check
  read_check-knows t p h =
      ground (
        arith,
        settle_pending-knows t p h,
        read_operand-knows t (settle_pending tokens columns t p),
      )

  check_unless-knows :
      (t : Token) (q : Parser × Bool)
      → knows columns q.0 ≡ true
      → knows columns (check_unless tokens columns t q) ≡ true
  check_unless-knows t (p, true) h = h
  check_unless-knows t (p, false) h = read_check-knows t p h

  knows-read_name :
      (t : Token) (p : Parser) → knows columns (read_name tokens columns t p) ≡ knows columns p
  knows-read_name t p = ground arith

  read_definition-knows :
      (o : Option Bool) (t : Token) (p : Parser)
      → knows columns p ≡ true
      → knows columns (read_definition tokens columns o t p) ≡ true
  read_definition-knows (some true) t p h =
      check_unless-knows t _
        (knows-read_unique t (read_name tokens columns t p) ∙ knows-read_name t p ∙ h)
  read_definition-knows (some false) t p h = read_check-knows t _ (knows-read_column t p ∙ h)
  read_definition-knows none t p h = read_check-knows t _ (knows-read_column t p ∙ h)

  knows-classify :
      (t : Token) (p : Parser) → knows columns (classify tokens columns t p) ≡ knows columns p
  knows-classify t p = ground arith

  step-knows :
      (t : Token) (p : Parser)
      → knows columns p ≡ true
      → knows columns (step tokens columns t p) ≡ true
  unfolding step
  step-knows t p h =
      let q =
        classify tokens columns t
          (record p { braces_deep = next_depth tokens columns t p.braces_deep }) in
      let k =
        knows-classify t (record p { braces_deep = next_depth tokens columns t p.braces_deep })
        ∙ h in
      elim (Bool-cases (not (is_some p.is_constraint_definition) && q.is_named_constraint)) [
        | inl b ↦ simp b k
        | inr b ↦ simp b (read_definition-knows q.is_constraint_definition t q k)
      ]

  run-knows :
      (ts : List Token) (p : Parser) (last : Option Token)
      → knows columns p ≡ true
      → knows columns (run tokens columns ts p last).0 ≡ true
  unfolding run
  run-knows [] p last h = h
  run-knows (t ∷ ts) p last h =
      ground (arith, run-knows ts (step tokens columns t p) (some t) (step-knows t p h))

  -- The columns of a `CHECK` constraint, if the parser returns one.
  abbrev pub HasKnownColumns : Option ConstraintDict → Type 0
  HasKnownColumns none = Unit
  HasKnownColumns (some c) = (all_in columns c.columns ≡ true) × (all_new [] c.columns ≡ true)

  check_constraint-HasKnownColumns :
      (p : Parser) → knows columns p ≡ true → HasKnownColumns (check_constraint p)
  unfolding check_constraint
  check_constraint-HasKnownColumns p h = unless (is_empty p.check_columns)
    where
      unless :
          (b : Bool)
          → HasKnownColumns (
              if b
              then none
              else some (record {
                is_unique = false;
                is_check = true;
                columns = fromkeys [] p.check_columns;
              }))
      unless true = tt
      unless false = (
        fromkeys-all_in columns [] p.check_columns (ground (arith, h)),
        fromkeys-all_new [] p.check_columns,
      )

  abbrev pub ReportsKnown :
      Answer (Option Text × Option ConstraintDict × Option ConstraintDict × Token) → Type 0
  ReportsKnown (raised x) = Unit
  ReportsKnown (ok (name, unique, check, end_token)) = HasKnownColumns check

  finish_definition-ReportsKnown :
      (q : Parser × (Option Token × List Token))
      → knows columns q.0 ≡ true
      → ReportsKnown (finish_definition tokens columns q).0
  finish_definition-ReportsKnown (p, (none, rest)) h = tt
  finish_definition-ReportsKnown (p, (some t, rest)) h = check_constraint-HasKnownColumns p h

  -- Whatever tokens a definition has, the columns of the `CHECK` constraint that is reported for it
  -- are columns of the table, in the table's spelling, and none of them twice.
  pub parse_definition-ReportsKnown :
      (ts : List Token) → ReportsKnown (parse_definition tokens columns ts).0
  unfolding parse_definition
  parse_definition-ReportsKnown ts =
      finish_definition-ReportsKnown (run tokens columns ts initial none)
        (run-knows ts initial none refl)
