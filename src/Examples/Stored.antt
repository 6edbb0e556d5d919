-- ===== src/Examples/Stored.antt =====
-- A stored table that is described.
use django_pyturso.Constraints.{SqlTokens, TokenType, name, keyword, punctuation, is_punctuation}
use django_pyturso.Constraints.Table.{ConstraintDict}
use django_pyturso.Description.Assembly.{
  IndexRow, Entry, ForeignKey, entry_named, get_constraints, index, primary, foreign,
}
use django_pyturso.Description.Entries.{get_item-get_constraints}
use django_pyturso.ForeignKeys.{resolve_foreign_key_target_columns}
use django_pyturso.Exec.{ok}
use django_pyturso.Description.Columns.{get_column_collations, get_column_sizes, get_json_columns}
use django_pyturso.Description.Keys.{Describes, get_table_description-Describes}
use django_pyturso.Description.Sizes.{Column, Prints, body, declared_sizes, get_column_sizes-body}
use django_pyturso.Description.{ColumnRow, get_table_description, get_primary_key_columns}
use django_pyturso.Prelude.{
  ℕ, ◌≡◌, refl, Bool, true, false, ◌&&◌, none, some, List, [], ◌∷◌, ◌++◌, Text, codes, text_eq,
  contains, Dict, get_item,
}

abbrev is_keyword : TokenType → Bool
is_keyword keyword = true
is_keyword _ = false

abbrev typed : SqlTokens
typed = record {
  Token = TokenType × Text;
  value = λ t. t.1;
  ttype = λ t. t.0;
  match_punctuation = λ t p. is_punctuation t.0 && text_eq t.1 p;
  match_keyword = λ t words. is_keyword t.0 && contains t.1 words;
}

abbrev word : Text → TokenType × Text
word t = (name, t)

abbrev mark : Text → TokenType × Text
mark t = (punctuation, t)

typed-Prints : Prints typed word mark
typed-Prints = record {
  value_word = λ t. refl;
  value_mark = λ p. refl;
  match_word = λ t p. refl;
  match_mark = λ p q. refl;
  no_keyword = λ n. refl;
}

-- A title of at most 80 characters with a collation, and a note.
abbrev title : Column (TokenType × Text)
title = record {
  name = codes "title";
  max_length = some 80;
  options = (keyword, codes "COLLATE") ∷ word (codes "NOCASE") ∷ [];
}

abbrev note : Column (TokenType × Text)
note = record { name = codes "note"; max_length = none; options = [] }

abbrev create_table : List (TokenType × Text)
create_table = word (codes "CREATE") ∷ word (codes "TABLE") ∷ word (codes "t") ∷ []

get_column_sizes-body_example :
    get_column_sizes typed
      (create_table ++ mark (codes "(") ∷ body typed word mark title (note ∷ []) [])
    ≡ declared_sizes typed word mark (title ∷ note ∷ []) []
unfolding text_eq
get_column_sizes-body_example =
    get_column_sizes-body typed word mark typed-Prints create_table title (note ∷ []) [] refl
      ((refl, refl, refl), ((refl, refl, refl), tt))

abbrev stored : List (TokenType × Text)
stored =
    word (codes "t")
    ∷ mark (codes "(")
    ∷ word (codes "a")
    ∷ word (codes "varchar")
    ∷ mark (codes "(")
    ∷ word (codes "9")
    ∷ mark (codes ")")
    ∷ (keyword, codes "COLLATE")
    ∷ word (codes "NOCASE")
    ∷ mark (codes ",")
    ∷ word (codes "b")
    ∷ word (codes "text")
    ∷ (keyword, codes "CHECK")
    ∷ mark (codes "(")
    ∷ word (codes "JSON_VALID")
    ∷ mark (codes "(")
    ∷ word (codes "b")
    ∷ mark (codes ")")
    ∷ mark (codes ")")
    ∷ mark (codes ")")
    ∷ []

collations_of_stored :
    get_column_collations typed stored ≡ (codes "a", some (codes "NOCASE")) ∷ (codes "b", none) ∷ []
unfolding get_column_collations text_eq contains
collations_of_stored = refl

sizes_of_stored : get_column_sizes typed stored ≡ (codes "a", 9) ∷ []
unfolding get_column_sizes text_eq contains
sizes_of_stored = refl

json_of_stored :
    get_json_columns typed (λ t. codes "json_valid") (codes "a" ∷ codes "b" ∷ []) stored
    ≡ codes "b" ∷ []
unfolding get_json_columns text_eq contains
json_of_stored = refl

abbrev column_row : Text → ℕ → ColumnRow
column_row t position = record {
  name = t;
  data_type = codes "integer";
  not_null = true;
  default = none;
  pk_position = position;
  hidden = 0;
}

get_table_description-Describes_example :
    Describes (column_row (codes "a") 1 ∷ column_row (codes "b") 2 ∷ []) (
      get_table_description typed
        (λ t. t)
        stored
        stored
        (column_row (codes "a") 1 ∷ column_row (codes "b") 2 ∷ []))
get_table_description-Describes_example =
    get_table_description-Describes typed (λ t. t) stored stored
      (column_row (codes "a") 1 ∷ column_row (codes "b") 2 ∷ [])

keys_in_order :
    get_primary_key_columns ((codes "a", 2) ∷ (codes "x", 0) ∷ (codes "b", 1) ∷ [])
    ≡ some (codes "b" ∷ codes "a" ∷ [])
unfolding get_primary_key_columns
keys_in_order = refl

-- A unique constraint that is also an index, and a foreign key without a target column.
abbrev unique_a : ConstraintDict
unique_a = record { is_unique = true; is_check = false; columns = codes "a" ∷ [] }

abbrev index_a : IndexRow
index_a = record {
  name = codes "a_uniq";
  is_unique = true;
  definition = some (codes "CREATE UNIQUE INDEX a_uniq ON t (a)");
  columns = record { name = some (codes "a"); is_descending = true; is_key = true } ∷ [];
}

abbrev key_to_u : ForeignKey
key_to_u =
    (0, record { id = 0; seq = 0; table = codes "u"; source = codes "b"; target = none } ∷ [])

abbrev only_id : Text → List Text
only_id table = codes "id" ∷ []

get_item-get_constraints_example :
    (result : Dict Entry) × (get_constraints only_id
        ((codes "a_uniq", unique_a) ∷ [])
        (index_a ∷ [])
        (some (codes "id" ∷ []))
        (key_to_u ∷ [])
      ≡ ok result)
    × ((name : Text)
        → get_item name result
          ≡ entry_named only_id name
              ((codes "a_uniq", unique_a) ∷ [])
              (index_a ∷ [])
              (some (codes "id" ∷ []))
              (key_to_u ∷ []))
unfolding resolve_foreign_key_target_columns
get_item-get_constraints_example =
    get_item-get_constraints only_id ((codes "a_uniq", unique_a) ∷ []) (index_a ∷ [])
      (some (codes "id" ∷ [])) (key_to_u ∷ []) ((codes "id" ∷ [], refl), tt)

constraints_of_t :
    get_constraints only_id
      ((codes "a_uniq", unique_a) ∷ [])
      (index_a ∷ [])
      (some (codes "id" ∷ []))
      (key_to_u ∷ [])
    ≡ ok (
        (
          codes "a_uniq",
          index (codes "a" ∷ []) (true ∷ []) true (codes "CREATE UNIQUE INDEX a_uniq ON t (a)"),
        )
        ∷ (codes "__primary__", primary (codes "id" ∷ []))
        ∷ (codes "fk_0", foreign (codes "b" ∷ []) (codes "u") (codes "id"))
        ∷ [])
unfolding get_constraints text_eq resolve_foreign_key_target_columns
constraints_of_t = refl
