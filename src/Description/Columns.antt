-- ===== src/Description/Columns.antt =====
-- What a stored `CREATE TABLE` statement says of the columns: `_get_column_collations`,
-- `_get_column_sizes` and `_get_json_columns` of src/django_pyturso/introspection.py, over sqlparse's
-- tokens. The first two leave out blanks and comments, the third only blanks. No statement is the
-- same as one without tokens.
use django_pyturso.Constraints.Table.{after_opening}
use django_pyturso.Constraints.{SqlTokens, is_word, column_by_name}
use django_pyturso.FieldTypes.{get_field_size}
use django_pyturso.Identifiers.{identifier_key, unquote_identifier}
use django_pyturso.Prelude.{
  ℕ, suc, ◌-◌, Bool, true, false, ◌&&◌, ◌||◌, Option, none, some, List, [], ◌∷◌, ◌++◌, Text, codes,
  text_eq, contains, ◌==◌, if◌then◌else◌, Dict, set_item, take,
}

-- `_TABLE_CONSTRAINT_KEYWORDS`
abbrev pub table_constraint_keywords : List Text
table_constraint_keywords =
    codes "CHECK"
    ∷ codes "CONSTRAINT"
    ∷ codes "FOREIGN"
    ∷ codes "FOREIGN KEY"
    ∷ codes "PRIMARY"
    ∷ codes "PRIMARY KEY"
    ∷ codes "UNIQUE"
    ∷ []

-- The local variables of `_get_column_collations`.
pub record Collations : Type 0 where
  pub collations : Dict (Option Text)
  pub depth : ℕ
  pub definition_start : Bool
  pub column_name : Option Text
  pub needs_collation : Bool

abbrev pub no_collations : Collations
no_collations = record {
  collations = [];
  depth = 0;
  definition_start = true;
  column_name = none;
  needs_collation = false;
}

module _ (tokens : SqlTokens) where
  open tokens use {Token, value, ttype, match_punctuation, match_keyword}

  abbrev pub behind_opening : Option (List Token) → List Token
  behind_opening none = []
  behind_opening (some ts) = ts

  -- A token outside of parentheses, in a definition with this column name.
  abbrev pub read_collation : Option Text → Token → Collations → Collations
  read_collation none t s = s
  read_collation (some column) t s =
      if s.needs_collation
      then record s {
        collations = set_item column (some (unquote_identifier (value t))) s.collations;
        needs_collation = false;
      }
      else if match_keyword t (codes "COLLATE" ∷ [])
      then record s { needs_collation = true }
      else s

  abbrev pub start_definition : Token → Collations → Collations
  start_definition t s =
      if match_keyword t table_constraint_keywords
      then record s { definition_start = false }
      else record s {
        definition_start = false;
        column_name = some (unquote_identifier (value t));
        collations = set_item (unquote_identifier (value t)) none s.collations;
      }

  -- One round of the loop, with `none` for `break`.
  unfoldable pub step_collations : Token → Collations → Option Collations
  unfolding set_item unquote_identifier
  step_collations t s =
      if match_punctuation t (codes "(")
      then some (record s { depth = suc s.depth })
      else if match_punctuation t (codes ")")
      then (if s.depth == 0 then none else some (record s { depth = s.depth - 1 }))
      else if (s.depth == 0) && match_punctuation t (codes ",")
      then some (record s { definition_start = true; column_name = none; needs_collation = false })
      else if s.depth == 0
      then (if s.definition_start
          then some (start_definition t s)
          else some (read_collation s.column_name t s))
      else some s

  unfoldable pub run_collations : List Token → Collations → Dict (Option Text)
  unfolding step_collations
  run_collations [] s = s.collations
  run_collations (t ∷ ts) s = elim (step_collations t s) [
    | none ↦ s.collations
    | some s' ↦ run_collations ts s'
  ]

  -- `_get_column_collations`
  unfoldable pub get_column_collations : List Token → Dict (Option Text)
  unfolding run_collations after_opening
  get_column_collations ts = run_collations (behind_opening (after_opening tokens ts)) no_collations

  -- `"".join(part.value for part in parts)`
  abbrev pub join_values : List Token → Text
  join_values [] = []
  join_values (t ∷ ts) = value t ++ join_values ts

  -- The declared type in a column's definition, behind the name.
  abbrev pub type_of_definition : List Token → Text
  type_of_definition [] = []
  type_of_definition (type ∷ []) = unquote_identifier (value type)
  type_of_definition (type ∷ opening ∷ ts) =
      if match_punctuation opening (codes "(")
      then unquote_identifier (value type) ++ join_values (take 3 (opening ∷ ts))
      else unquote_identifier (value type)

  abbrev pub set_size : Text → Option ℕ → Dict ℕ → Dict ℕ
  set_size column none sizes = sizes
  set_size column (some size) sizes = set_item column size sizes

  -- What a definition adds to the sizes.
  unfoldable pub add_size : List Token → Dict ℕ → Dict ℕ
  unfolding get_field_size unquote_identifier set_item
  add_size [] sizes = sizes
  add_size (name ∷ ts) sizes =
      if match_keyword name table_constraint_keywords
      then sizes
      else set_size (unquote_identifier (value name)) (get_field_size (type_of_definition ts)) sizes

  abbrev pub next_depth : Token → ℕ → ℕ
  next_depth t depth =
      if match_punctuation t (codes "(")
      then suc depth
      else if match_punctuation t (codes ")")
      then depth - 1
      else depth

  abbrev pub ends_definition : Token → ℕ → Bool
  ends_definition t depth =
      (depth == 0) && (match_punctuation t (codes ",") || match_punctuation t (codes ")"))

  -- The loop of `_get_column_sizes`, with its `definition`, `depth` and `sizes`.
  unfoldable pub run_sizes : List Token → List Token → ℕ → Dict ℕ → Dict ℕ
  unfolding add_size text_eq
  run_sizes [] definition depth sizes = sizes
  run_sizes (t ∷ ts) definition depth sizes =
      let ended = add_size definition sizes in
      let later = run_sizes ts [] depth ended in
      let inside = run_sizes ts (definition ++ t ∷ []) (next_depth t depth) sizes in
      if ends_definition t depth
      then (if text_eq (value t) (codes ")") then ended else later)
      else inside

  -- `_get_column_sizes`
  unfoldable pub get_column_sizes : List Token → Dict ℕ
  unfolding run_sizes after_opening
  get_column_sizes ts = run_sizes (behind_opening (after_opening tokens ts)) [] 0 []

  -- `result.add(column)`. An empty name counts as none.
  abbrev pub add_column : Option Text → List Text → List Text
  add_column none result = result
  add_column (some []) result = result
  add_column (some (c ∷ column)) result =
      if contains (c ∷ column) result then result else result ++ (c ∷ column) ∷ []

  module _ (casefold : Text → Text) (columns : List Text) where
    -- The test of a token and the three that follow it.
    abbrev pub is_json_call : Token → Token → Token → Token → Bool
    is_json_call t opening identifier closing =
        text_eq (casefold (value t)) (codes "json_valid")
        && match_punctuation opening (codes "(")
        && match_punctuation closing (codes ")")
        && is_word (ttype identifier)

    unfoldable pub run_json : List Token → List Text → List Text
    unfolding text_eq contains column_by_name identifier_key unquote_identifier
    run_json (t ∷ opening ∷ identifier ∷ closing ∷ ts) result =
        let key = identifier_key (unquote_identifier (value identifier)) in
        let added = add_column (column_by_name key columns) result in
        let found = run_json (opening ∷ identifier ∷ closing ∷ ts) added in
        let later = run_json (opening ∷ identifier ∷ closing ∷ ts) result in
        if is_json_call t opening identifier closing then found else later
    run_json _ result = result

    -- `_get_json_columns`, with `str.casefold` as `casefold`.
    unfoldable pub get_json_columns : List Token → List Text
    unfolding run_json
    get_json_columns ts = run_json ts []
