-- ===== src/Constraints/Table.antt =====
-- The results of the constraint parser, and `_parse_table_constraints` of
-- src/django_pyturso/introspection.py, which runs it over a `CREATE TABLE` statement.
use django_pyturso.Constraints.{SqlTokens, Parser, initial, run, is_empty}
use django_pyturso.Decimals.{decimal}
use django_pyturso.Exec.{Answer, ok, raised, database_error}
use django_pyturso.Prelude.{
  ℕ, zero, suc, Bool, true, false, Option, none, some, List, [], ◌∷◌, ◌++◌, Text, codes, contains,
  if◌then◌else◌, length, Dict, set_item,
}

-- The dictionary of a constraint: its columns and which of the two keys is true. The other keys
-- are the same in both.
pub record ConstraintDict : Type 0 where
  pub is_unique : Bool
  pub is_check : Bool
  pub columns : List Text

-- `list(dict.fromkeys(names))`: the first occurrences, without those of `seen`.
unfoldable pub fromkeys : List Text → List Text → List Text
unfolding contains
fromkeys seen [] = []
fromkeys seen (x ∷ xs) = if contains x seen then fromkeys seen xs else x ∷ fromkeys (x ∷ seen) xs

abbrev pub unique_constraint : Parser → Option ConstraintDict
unique_constraint p =
    if is_empty p.unique_columns
    then none
    else some (record { is_unique = true; is_check = false; columns = p.unique_columns })

unfoldable pub check_constraint : Parser → Option ConstraintDict
unfolding fromkeys
check_constraint p =
    if is_empty p.check_columns
    then none
    else some (record { is_unique = false; is_check = true; columns = fromkeys [] p.check_columns })

abbrev pub unnamed : ℕ → Text
unnamed n = codes "__unnamed_constraint_" ++ decimal n ++ codes "__"

pub record Table : Type 0 where
  pub constraints : Dict ConstraintDict
  pub unnamed_index : ℕ

-- One round of `for constraint in (unique, check)`. An empty name counts as none.
unfoldable pub add_constraint : Option Text → Option ConstraintDict → Table → Table
unfolding set_item decimal
add_constraint name none table = table
add_constraint (some (c ∷ name)) (some constraint) table = record table {
  constraints = set_item (c ∷ name) constraint table.constraints;
}
add_constraint _ (some constraint) table = record table {
  unnamed_index = suc table.unnamed_index;
  constraints = set_item (unnamed (suc table.unnamed_index)) constraint table.constraints;
}

module _ (tokens : SqlTokens) where
  open tokens use {Token, match_punctuation}

  -- The tokens after the first opening parenthesis, if there is one.
  unfoldable pub after_opening : List Token → Option (List Token)
  after_opening [] = none
  after_opening (t ∷ ts) =
      let later = after_opening ts in if match_punctuation t (codes "(") then some ts else later

module _ (tokens : SqlTokens) (columns : List Text) where
  open tokens use {Token, match_punctuation}

  abbrev pub finish_definition :
      Parser × (Option Token × List Token)
      → Answer (Option Text × Option ConstraintDict × Option ConstraintDict × Token) × List Token
  finish_definition (p, (none, rest)) = (raised database_error, rest)
  finish_definition (p, (some t, rest)) =
      (ok (p.constraint_name, unique_constraint p, check_constraint p, t), rest)

  -- `_parse_column_or_constraint_definition`, with the tokens that it leaves in the iterator.
  unfoldable pub parse_definition :
      List Token
      → Answer (Option Text × Option ConstraintDict × Option ConstraintDict × Token) × List Token
  unfolding run check_constraint
  parse_definition ts = finish_definition (run tokens columns ts initial none)

  abbrev pub Next : Type 0
  Next = List Token → Table → Option (Answer Table)

  abbrev pub continue_unless : Bool → Next → List Token → Table → Option (Answer Table)
  continue_unless true next rest table = some (ok table)
  continue_unless false next rest table = next rest table

  -- What a round does with a definition that was parsed: `next` is the rest of the loop.
  abbrev pub add_definition :
      Next
      → Answer (Option Text × Option ConstraintDict × Option ConstraintDict × Token) × List Token
      → Table
      → Option (Answer Table)
  add_definition next (raised x, rest) table = some (raised x)
  add_definition next (ok (name, unique, check, end_token), rest) table =
      continue_unless (match_punctuation end_token (codes ")")) next rest
        (add_constraint name check (add_constraint name unique table))

  -- The loop of `_parse_table_constraints`. `none` says that the fuel was not enough.
  unfoldable pub parse_definitions : ℕ → Next
  unfolding parse_definition add_constraint
  parse_definitions zero ts table = none
  parse_definitions (suc n) ts table =
      add_definition (parse_definitions n) (parse_definition ts) table

  abbrev pub empty_table : Table
  empty_table = record { constraints = []; unnamed_index = 0 }

  abbrev pub parse_from : Option (List Token) → Option (Answer Table)
  parse_from none = some (ok empty_table)
  parse_from (some ts) = parse_definitions (suc (length ts)) ts empty_table

  -- `_parse_table_constraints`, on the tokens of the first statement, empty if there is none.
  unfoldable pub parse_table_constraints : List Token → Option (Answer Table)
  unfolding after_opening parse_definitions
  parse_table_constraints ts = parse_from (after_opening tokens ts)
