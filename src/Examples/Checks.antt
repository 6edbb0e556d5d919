-- ===== src/Examples/Checks.antt =====
-- An engine that keeps two settings, and the backend's checks on it.
use django_pyturso.Constraints.Columns.{ReportsKnown, parse_definition-ReportsKnown}
use django_pyturso.Constraints.Progress.{parse_table_constraints-ends}
use django_pyturso.Constraints.Table.{Table, parse_definition, parse_table_constraints}
use django_pyturso.Constraints.{SqlTokens, name, keyword, punctuation}
use django_pyturso.Exec.{Answer, ok, raised, database_error}
use django_pyturso.Flush.Reach.{IsClosure, references_from-IsClosure}
use django_pyturso.Flush.{references_from}
use django_pyturso.ForeignKeys.Enforcement.{
  PragmaCalls, Reports, IsDisabled, disable_constraint_checking,
  disable_constraint_checking-IsDisabled,
}
use django_pyturso.ForeignKeys.Resolution.{Identifies, source_identity-Identifies}
use django_pyturso.ForeignKeys.{ForeignKeyRow, source_identity}
use django_pyturso.Prelude.{
  ℕ, ◌≡◌, refl, ◌⊎◌, Bool, true, none, some, List, [], ◌∷◌, Text, codes, contains, text_eq,
  if◌then◌else◌, arith, ◌&&◌,
}

-- Two tables that reference each other, and a third that references the first.
abbrev cycle : List (Text × Text)
cycle = (codes "a", codes "b") ∷ (codes "b", codes "a") ∷ (codes "a", codes "c") ∷ []

references_from-IsClosure_example :
    (r : List Text) × (references_from cycle (codes "a") ≡ some r) × IsClosure cycle (codes "a") r
references_from-IsClosure_example = references_from-IsClosure cycle (codes "a")

references_cycle : references_from cycle (codes "a") ≡ some (codes "a" ∷ codes "b" ∷ codes "c" ∷ [])
unfolding references_from
references_cycle = refl

abbrev flag : PragmaCalls
flag = record {
  D = Bool;
  read_foreign_keys = λ d. (ok (some (if d then 1 else 0)), d);
  write_foreign_keys = λ b d. (ok tt, b);
}

abbrev flag_enforced : Bool → ℕ
flag_enforced d = if d then 1 else 0

flag-Reports : Reports flag flag_enforced
flag-Reports = record { reads = λ d n h. ground arith; reading = λ d. refl }

disable_constraint_checking-IsDisabled_example :
    IsDisabled flag flag_enforced flag-Reports 1 (disable_constraint_checking flag true)
disable_constraint_checking-IsDisabled_example =
    disable_constraint_checking-IsDisabled flag flag_enforced flag-Reports true

-- A composite foreign key that declares one of its columns.
abbrev rows : List ForeignKeyRow
rows =
    record { id = 0; seq = 0; table = codes "t"; source = codes "x"; target = none }
    ∷ record { id = 0; seq = 1; table = codes "t"; source = codes "y"; target = some (codes "b") }
    ∷ []

source_identity-Identifies_example :
    (source_identity (λ t. t) (codes "c") [] (codes "rowid" ∷ []) ≡ raised database_error)
    ⊎ ((sql names : List Text) × (source_identity (λ t. t) (codes "c") [] (codes "rowid" ∷ [])
          ≡ ok (sql, names))
        × Identifies (λ t. t) (codes "rowid" ∷ []) names)
source_identity-Identifies_example =
    source_identity-Identifies (λ t. t) (codes "c") (codes "rowid" ∷ [])

-- Tokens that are their texts: words, parentheses and commas.
abbrev is_mark : Text → Bool
is_mark t = contains t (codes "(" ∷ codes ")" ∷ codes "," ∷ [])

abbrev is_key : Text → Bool
is_key t = contains t (codes "CHECK" ∷ codes "UNIQUE" ∷ codes "CONSTRAINT" ∷ [])

abbrev texts : SqlTokens
texts = record {
  Token = Text;
  value = λ t. t;
  ttype = λ t. if is_mark t then punctuation else if is_key t then keyword else name;
  match_punctuation = λ t mark. is_mark t && text_eq t mark;
  match_keyword = λ t words. is_key t && contains t words;
}

abbrev definition : List Text
definition =
    codes "CHECK" ∷ codes "(" ∷ codes "a" ∷ codes "," ∷ codes "a" ∷ codes ")" ∷ codes ")" ∷ []

parse_definition-ReportsKnown_example :
    ReportsKnown texts (codes "a" ∷ []) (parse_definition texts (codes "a" ∷ []) definition).0
parse_definition-ReportsKnown_example =
    parse_definition-ReportsKnown texts (codes "a" ∷ []) definition

parse_table_constraints-ends_example :
    (a : Answer Table) × (parse_table_constraints texts (codes "a" ∷ []) (codes "(" ∷ definition)
      ≡ some a)
parse_table_constraints-ends_example =
    parse_table_constraints-ends texts (codes "a" ∷ []) (codes "(" ∷ definition)
