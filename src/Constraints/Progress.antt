-- ===== src/Constraints/Progress.antt =====
-- The constraint parser ends: each definition takes at least one token.
use django_pyturso.Constraints.Table.{
  Table, ConstraintDict, parse_definition, parse_definitions, parse_table_constraints,
  after_opening, parse_from, empty_table, finish_definition, Next, continue_unless, add_definition,
}
use django_pyturso.Constraints.{SqlTokens, Parser, initial, run, step}
use django_pyturso.Exec.{Answer, ok, raised, database_error}
use django_pyturso.Prelude.{
  ℕ, zero, suc, ◌≤◌, ◌<◌, ◌≡◌, refl, Bool, true, false, Option, none, some, List, [], ◌∷◌, codes,
  length, arith, Text,
}

module _ (tokens : SqlTokens) (columns : List Text) where
  open tokens use {Token, match_punctuation}

  length-run :
      (ts : List Token) (p : Parser) (last : Option Token)
      → length (run tokens columns ts p last).1.1 ≤ length ts
  unfolding run
  length-run [] p last = ground arith
  length-run (t ∷ ts) p last = ground (arith, length-run ts (step tokens columns t p) (some t))

  tokens-finish_definition :
      (q : Parser × (Option Token × List Token)) → (finish_definition tokens columns q).1 ≡ q.1.1
  tokens-finish_definition (p, (none, rest)) = refl
  tokens-finish_definition (p, (some t, rest)) = refl

  length-parse_definition :
      (t : Token) (ts : List Token)
      → length (parse_definition tokens columns (t ∷ ts)).1 ≤ length ts
  unfolding parse_definition run
  length-parse_definition t ts = ground (
    arith,
    tokens-finish_definition (run tokens columns (t ∷ ts) initial none),
    length-run ts (step tokens columns t initial) (some t),
  )

  -- Some result is there: the loop has not run out of fuel.
  abbrev HasResult : Option (Answer Table) → Type 0
  HasResult o = (a : Answer Table) × (o ≡ some a)

  continue_unless-HasResult :
      (b : Bool) (next : Next tokens columns) (rest : List Token) (table : Table)
      → ((table' : Table) → HasResult (next rest table'))
      → HasResult (continue_unless tokens columns b next rest table)
  continue_unless-HasResult true next rest table h = (ok table, refl)
  continue_unless-HasResult false next rest table h = h table

  add_definition-HasResult :
      (next : Next tokens columns)
      (q : Answer (Option Text × Option ConstraintDict × Option ConstraintDict × Token)
        × List Token)
      (table : Table)
      → ((table' : Table) → HasResult (next q.1 table'))
      → HasResult (add_definition tokens columns next q table)
  add_definition-HasResult next (raised x, rest) table h = (raised x, refl)
  add_definition-HasResult next (ok (name, unique, check, end_token), rest) table h =
      continue_unless-HasResult (match_punctuation end_token (codes ")")) next rest _ h

  parse_definitions-HasResult :
      (n : ℕ) (ts : List Token) (table : Table)
      → length ts < n
      → HasResult (parse_definitions tokens columns n ts table)
  unfolding parse_definitions
  parse_definitions-HasResult zero ts table h = ground arith
  parse_definitions-HasResult (suc n) [] table h = (raised database_error, refl)
  parse_definitions-HasResult (suc n) (t ∷ ts) table h =
      add_definition-HasResult (parse_definitions tokens columns n) _ table (λ table'.
        parse_definitions-HasResult n _ table' (ground (arith, length-parse_definition t ts)))

  -- Reading the constraints of any statement ends within the fuel, one more than the tokens after
  -- the first opening parenthesis: each definition takes a token or raises. The result is
  -- the table of constraints or the exception that a definition raised.
  pub parse_table_constraints-ends :
      (ts : List Token) → (a : Answer Table) × (parse_table_constraints tokens columns ts ≡ some a)
  unfolding parse_table_constraints
  parse_table_constraints-ends ts = from (after_opening tokens ts)
    where
      from : (o : Option (List Token)) → HasResult (parse_from tokens columns o)
      from none = (ok (empty_table tokens columns), refl)
      from (some ts') =
          parse_definitions-HasResult (suc (length ts')) ts' (empty_table tokens columns)
            (ground arith)
