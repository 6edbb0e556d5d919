-- ===== src/Examples/Statements.antt =====
-- A lexer whose tokens are their texts, and a statement that deletes after a table expression.
use django_pyturso.Prelude.{
  map, if◌then◌else◌, some, Bool, false, List, [], ◌∷◌, ◌++◌, Text, codes, contains, text_eq, ◌≡◌,
  refl, true, ◌||◌,
}
use django_pyturso.Flush.Deletes.{Reads, AreTargets, sql_flush-Deletes}
use django_pyturso.Flush.Statements.{Style, sql_flush, delete_statement, sequence_reset_by_name_sql}
use django_pyturso.Exec.{ok}
use django_pyturso.Flush.{Catalogue, pragma}
use django_pyturso.Identifiers.{quote_name}
use django_pyturso.Writes.Expressions.{is_write_statement_cte}
use django_pyturso.Writes.{SqlLexer, is_write_statement, is_write_verb}

abbrev is_mark_text : Text → Bool
is_mark_text t = contains t (codes "(" ∷ codes ")" ∷ codes "," ∷ codes ";" ∷ [])

abbrev is_verb_text : Text → Bool
is_verb_text t = contains t (codes "SELECT" ∷ codes "INSERT" ∷ codes "DELETE" ∷ [])

abbrev lexer : SqlLexer
lexer = record {
  Token = Text;
  value = λ t. t;
  upper = λ t. t;
  is_blank = λ t. text_eq t (codes " ");
  is_punctuation = is_mark_text;
  is_keyword = λ t. is_verb_text t || contains t (codes "WITH" ∷ codes "AS" ∷ []);
  is_dml = is_verb_text;
}

abbrev inside : List Text
inside = codes "SELECT" ∷ codes "(" ∷ codes "1" ∷ codes ")" ∷ []

abbrev blank : List Text
blank = codes " " ∷ []

is_write_statement_cte_example :
    is_write_statement lexer (
      blank
      ++ codes "WITH" ∷ blank
      ++ codes "c" ∷ blank
      ++ codes "AS" ∷ blank
      ++ codes "(" ∷ inside
      ++ codes ")" ∷ blank
      ++ codes "DELETE" ∷ [])
    ≡ is_write_verb lexer (codes "DELETE")
unfolding text_eq contains
is_write_statement_cte_example =
    is_write_statement_cte lexer blank (codes "WITH") blank (codes "c") blank (codes "AS") blank
      (codes "(") inside (codes ")") blank (codes "DELETE") []
      (refl, (refl, (refl, (refl, (refl, tt))))) refl refl refl refl refl refl refl

deletes : is_write_verb lexer (codes "DELETE") ≡ true
unfolding text_eq contains
deletes = refl

-- Two tables, of which the second references the first.
abbrev pair : Catalogue
pair = record {
  D = Bool;
  table_names = λ d. (ok (codes "a" ∷ codes "b" ∷ []), d);
  third_column = λ sql d.
      (ok (if text_eq sql (codes "PRAGMA foreign_key_list(\"b\")") then codes "A" ∷ [] else []), d);
}

abbrev plain : Style
plain = record { sql_keyword = λ t. t; sql_field = λ t. t; sql_table = λ t. t }

abbrev pair_references : Text → List Text
pair_references table =
    if text_eq (pragma pair table) (codes "PRAGMA foreign_key_list(\"b\")")
    then codes "A" ∷ []
    else []

pair-Reads : Reads pair (codes "a" ∷ codes "b" ∷ []) pair_references
pair-Reads = record { names_read = λ d. refl; references_read = λ table d. refl }

sql_flush-Deletes_example :
    (targets : List Text) × AreTargets pair
      (codes "a" ∷ codes "b" ∷ [])
      pair_references
      (codes "a" ∷ [])
      true
      targets
    × ((sql_flush pair plain (codes "a" ∷ []) true true true).0
        ≡ ok (
            some
              (map (delete_statement plain) targets ++ sequence_reset_by_name_sql plain targets)))
sql_flush-Deletes_example =
    sql_flush-Deletes pair (codes "a" ∷ codes "b" ∷ []) pair_references pair-Reads plain
      (codes "a" ∷ []) true true true

flush_pair :
    (sql_flush pair plain (codes "a" ∷ []) false true true).0
    ≡ ok (some (codes "DELETE FROM \"a\";" ∷ codes "DELETE FROM \"b\";" ∷ []))
unfolding sql_flush text_eq quote_name
flush_pair = refl
