-- ===== src/Constraints.antt =====
-- The parser of `UNIQUE` and `CHECK` constraints in a stored `CREATE TABLE` statement:
-- `_parse_column_or_constraint_definition` and `_parse_table_constraints` of
-- src/django_pyturso/introspection.py, over the tokens of sqlparse without blanks and comments.
pub mod Table
pub mod Columns
pub mod Progress
use django_pyturso.Exec.{Answer, ok, raised, database_error}
use django_pyturso.Identifiers.{identifier_key, unquote_identifier}
use django_pyturso.Prelude.{
  ℕ, zero, suc, ◌+◌, ◌-◌, Bool, true, false, not, ◌&&◌, ◌||◌, Option, none, some, List, [], ◌∷◌,
  ◌++◌, Text, codes, text_eq, contains, ◌==◌, if◌then◌else◌, is_some,
}

-- The token types that the parser tells apart. `operator` is every type within sqlparse's
-- `Operator`, `string_symbol` and `string_single` are its two string types.
pub data TokenType : Type 0 where
  name keyword string_symbol string_single punctuation operator other : TokenType

-- What the parser uses of sqlparse: a token's text and type, and `token.match` for the types
-- `Punctuation` and `Keyword`.
pub record SqlTokens : Type 1 where
  pub Token : Type 0
  pub value : Token → Text
  pub ttype : Token → TokenType
  pub match_punctuation : Token → Text → Bool
  pub match_keyword : Token → List Text → Bool

-- The local variables of the parser. The depth of parentheses is never below zero where it is kept.
pub record Parser : Type 0 where
  pub is_constraint_definition : Option Bool
  pub is_named_constraint : Bool
  pub field_name : Option Text
  pub constraint_name : Option Text
  pub unique : Bool
  pub unique_needs_column : Bool
  pub unique_columns : List Text
  pub unique_braces_deep : ℕ
  pub check : Bool
  pub check_needs_collation : Bool
  pub check_pending_column : Option Text
  pub check_expects_operand : Bool
  pub check_columns : List Text
  pub check_braces_deep : ℕ
  pub braces_deep : ℕ

abbrev pub initial : Parser
initial = record {
  is_constraint_definition = none;
  is_named_constraint = false;
  field_name = none;
  constraint_name = none;
  unique = false;
  unique_needs_column = false;
  unique_columns = [];
  unique_braces_deep = 0;
  check = false;
  check_needs_collation = false;
  check_pending_column = none;
  check_expects_operand = true;
  check_columns = [];
  check_braces_deep = 0;
  braces_deep = 0;
}

-- `columns_by_name.get(key)`, where the last column with a key is the one that counts.
unfoldable pub column_by_name : Text → List Text → Option Text
unfolding text_eq identifier_key
column_by_name key [] = none
column_by_name key (c ∷ cs) = elim (column_by_name key cs) [
  | some found ↦ some found
  | none ↦ if text_eq (identifier_key c) key then some c else none
]

abbrev pub get_or : Text → Option Text → Text
get_or default none = default
get_or default (some t) = t

-- Name, Keyword, Symbol
abbrev pub is_word : TokenType → Bool
is_word name = true
is_word keyword = true
is_word string_symbol = true
is_word _ = false

-- Name, Keyword, Symbol, Single
abbrev pub is_name : TokenType → Bool
is_name string_single = true
is_name t = is_word t

abbrev pub is_operator : TokenType → Bool
is_operator operator = true
is_operator _ = false

abbrev pub is_punctuation : TokenType → Bool
is_punctuation punctuation = true
is_punctuation _ = false

abbrev pub is_symbol : TokenType → Bool
is_symbol string_symbol = true
is_symbol _ = false

abbrev pub is_empty : List Text → Bool
is_empty [] = true
is_empty (_ ∷ _) = false

abbrev pub literal_keywords : List Text
literal_keywords =
    codes "CURRENT_DATE"
    ∷ codes "CURRENT_TIME"
    ∷ codes "CURRENT_TIMESTAMP"
    ∷ codes "FALSE"
    ∷ codes "NULL"
    ∷ codes "TRUE"
    ∷ []

abbrev pub operand_keywords : List Text
operand_keywords =
    codes "AND"
    ∷ codes "AS"
    ∷ codes "BETWEEN"
    ∷ codes "CASE"
    ∷ codes "ELSE"
    ∷ codes "ESCAPE"
    ∷ codes "IN"
    ∷ codes "IS"
    ∷ codes "OR"
    ∷ codes "THEN"
    ∷ codes "WHEN"
    ∷ []

module _ (tokens : SqlTokens) (columns : List Text) where
  open tokens use {Token, value, ttype, match_punctuation, match_keyword}

  -- Whether the token ends the definition: a comma or a closing parenthesis outside of any
  -- parentheses of the definition.
  abbrev pub ends : Token → ℕ → Bool
  ends t depth =
      if match_punctuation t (codes "(")
      then false
      else (depth == 0) && (match_punctuation t (codes ")") || match_punctuation t (codes ","))

  abbrev pub next_depth : Token → ℕ → ℕ
  next_depth t depth =
      if match_punctuation t (codes "(")
      then suc depth
      else if match_punctuation t (codes ")")
      then depth - 1
      else depth

  -- The first token decides what is defined.
  abbrev pub classify : Token → Parser → Parser
  classify t p = elim p.is_constraint_definition [
    | some _ ↦ p
    | none ↦
        let named = match_keyword t (codes "CONSTRAINT" ∷ []) in
        record p {
          is_named_constraint = named;
          is_constraint_definition = some (named || match_keyword t (codes "UNIQUE" ∷ []));
        }
  ]

  abbrev pub read_name : Token → Parser → Parser
  read_name t p =
      if p.is_named_constraint && not (is_some p.constraint_name) && is_name (ttype t)
      then record p { constraint_name = some (unquote_identifier (value t)) }
      else p

  -- A column of a `UNIQUE` constraint, in the spelling of the table's columns if it is one.
  abbrev pub unique_column : Token → Text
  unique_column t =
      let written = unquote_identifier (value t) in
      get_or written (column_by_name (identifier_key written) columns)

  -- The test of `unique` in a constraint, after its name. The Boolean says that the round ends.
  unfoldable pub read_unique : Token → Parser → Parser × Bool
  unfolding column_by_name identifier_key unquote_identifier
  read_unique t p =
      if match_keyword t (codes "UNIQUE" ∷ [])
      then (
        record p { unique = true; unique_needs_column = true; unique_braces_deep = p.braces_deep },
        false,
      )
      else if not p.unique
      then (p, false)
      else if p.unique_braces_deep == p.braces_deep
      then (record p { unique = is_empty p.unique_columns }, true)
      else if match_punctuation t (codes ",")
      then (record p { unique_needs_column = true }, false)
      else if p.unique_needs_column && is_name (ttype t)
      then (
        record p {
          unique_columns = p.unique_columns ++ unique_column t ∷ [];
          unique_needs_column = false;
        },
        false,
      )
      else (p, false)

  abbrev pub read_field_name : Token → Parser → Parser
  read_field_name t p =
      if not (is_some p.field_name) && is_name (ttype t)
      then record p { field_name = some (unquote_identifier (value t)) }
      else p

  -- A column's definition: its name, and a `UNIQUE` after it.
  unfoldable pub read_column : Token → Parser → Parser
  unfolding unquote_identifier
  read_column t p =
      let q = read_field_name t p in
      if match_keyword t (codes "UNIQUE" ∷ [])
      then elim q.field_name [ none ↦ q | some field ↦ record q { unique_columns = field ∷ [] } ]
      else q

  -- A column that was read is one unless it is a function's name.
  unfoldable pub settle_pending : Token → Parser → Parser
  settle_pending t p = elim p.check_pending_column [
    | none ↦ p
    | some column ↦ record p {
      check_columns =
          if match_punctuation t (codes "(")
          then p.check_columns
          else p.check_columns ++ column ∷ [];
      check_pending_column = none;
    }
  ]

  abbrev pub is_infix_word : Text → Bool
  is_infix_word key = contains key (codes "end" ∷ codes "like" ∷ codes "glob" ∷ [])

  -- A token within the parentheses of a `CHECK` that no earlier test has taken.
  unfoldable pub read_candidate : Token → Parser → Parser
  unfolding column_by_name identifier_key unquote_identifier contains
  read_candidate t p =
      let key = identifier_key (unquote_identifier (value t)) in
      if not (is_symbol (ttype t)) && is_infix_word key && not p.check_expects_operand
      then record p { check_expects_operand = not (text_eq key (codes "end")) }
      else if is_word (ttype t)
          || (p.check_expects_operand && is_operator (ttype t) && text_eq key (codes "like"))
      then record p {
        check_pending_column = column_by_name key columns;
        check_expects_operand = false;
      }
      else record p { check_expects_operand = is_operator (ttype t) }

  unfoldable pub read_operand : Token → Parser → Parser
  unfolding read_candidate contains
  read_operand t p =
      if p.check_needs_collation
      then record p { check_needs_collation = false }
      else if is_punctuation (ttype t)
      then record p { check_expects_operand = contains (value t) (codes "(" ∷ codes "," ∷ []) }
      else if match_keyword t (codes "COLLATE" ∷ [])
      then record p { check_needs_collation = true }
      else if match_keyword t literal_keywords
      then record p { check_expects_operand = false }
      else if match_keyword t (codes "NOT" ∷ [])
      then p
      else if match_keyword t operand_keywords
      then record p { check_expects_operand = true }
      else read_candidate t p

  abbrev pub read_within : Token → Parser → Parser
  read_within t p =
      if p.check_braces_deep == p.braces_deep
      then record p { check = p.check && is_empty p.check_columns }
      else read_operand t p

  -- The last part of a round.
  unfoldable pub read_check : Token → Parser → Parser
  unfolding settle_pending read_operand
  read_check t p =
      if match_keyword t (codes "CHECK" ∷ [])
      then record p {
        check = true;
        check_needs_collation = false;
        check_expects_operand = true;
        check_braces_deep = p.braces_deep;
      }
      else if p.check
      then read_within t (settle_pending t p)
      else p

  abbrev pub check_unless : Token → Parser × Bool → Parser
  check_unless t (p, true) = p
  check_unless t (p, false) = read_check t p

  -- The parts of a round of which `is_constraint_definition` makes the choice.
  abbrev pub read_definition : Option Bool → Token → Parser → Parser
  read_definition (some true) t p = check_unless t (read_unique t (read_name t p))
  read_definition (some false) t p = read_check t (read_column t p)
  read_definition none t p = read_check t (read_column t p)

  -- A round of the loop that does not end it. The word `CONSTRAINT` at the start is all that its
  -- round reads.
  unfoldable pub step : Token → Parser → Parser
  unfolding read_unique read_column read_check
  step t p =
      let q = classify t (record p { braces_deep = next_depth t p.braces_deep }) in
      if not (is_some p.is_constraint_definition) && q.is_named_constraint
      then q
      else read_definition q.is_constraint_definition t q

  -- The loop over the tokens: the variables at its end, the last token that it has read, and the
  -- tokens that are left.
  unfoldable pub run : List Token → Parser → Option Token → Parser × (Option Token × List Token)
  unfolding step
  run [] p last = (p, (last, []))
  run (t ∷ ts) p last =
      let rest = run ts (step t p) (some t) in
      if ends t p.braces_deep then (p, (some t, ts)) else rest
