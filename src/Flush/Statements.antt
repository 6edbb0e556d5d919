-- ===== src/Flush/Statements.antt =====
-- `sql_flush` and `sequence_reset_by_name_sql` of src/django_pyturso/operations.py.
use django_pyturso.Exec.{Answer, ok, continue}
use django_pyturso.Flush.{Catalogue, references_graph_for_table}
use django_pyturso.ForeignKeys.{join}
use django_pyturso.Identifiers.{quote_name, quote_text}
use django_pyturso.Prelude.{
  Bool, Option, none, some, List, [], ◌∷◌, ◌++◌, map, Text, codes, contains, if◌then◌else◌,
}

-- The methods of Django's style object that the statements use.
pub record Style : Type 0 where
  pub sql_keyword : Text → Text
  pub sql_field : Text → Text
  pub sql_table : Text → Text

-- `set(tables)` together with the set `seen`: what it adds to it.
unfoldable pub add_all : List Text → List Text → List Text
unfolding contains
add_all seen [] = seen
add_all seen (x ∷ xs) = if contains x seen then add_all seen xs else add_all (seen ++ x ∷ []) xs

abbrev pub delete_statement : Style → Text → Text
delete_statement style table =
    style.sql_keyword (codes "DELETE")
    ++ codes " "
    ++ style.sql_keyword (codes "FROM")
    ++ codes " "
    ++ style.sql_field (quote_name table)
    ++ codes ";"

-- `sequence_reset_by_name_sql`, for the names of the tables.
unfoldable pub sequence_reset_by_name_sql : Style → List Text → List Text
unfolding join quote_name quote_text
sequence_reset_by_name_sql style [] = []
sequence_reset_by_name_sql style (table ∷ tables) =
    (style.sql_keyword (codes "UPDATE")
      ++ codes " "
      ++ style.sql_table (quote_name (codes "sqlite_sequence"))
      ++ codes " "
      ++ style.sql_keyword (codes "SET")
      ++ codes " "
      ++ style.sql_field (quote_name (codes "seq"))
      ++ codes " = 0 "
      ++ style.sql_keyword (codes "WHERE")
      ++ codes " "
      ++ style.sql_field (quote_name (codes "name"))
      ++ codes " "
      ++ style.sql_keyword (codes "IN")
      ++ codes " ("
      ++ join (codes ", ") (map quote_text (table ∷ tables))
      ++ codes ");")
    ∷ []

unfoldable pub flush_statements : Style → Bool → List Text → List Text
unfolding sequence_reset_by_name_sql
flush_statements style reset_sequences targets =
    map (delete_statement style) targets
    ++ (if reset_sequences then sequence_reset_by_name_sql style targets else [])

module _ (catalogue : Catalogue) where
  open catalogue use {D, table_names}

  abbrev pub union_with : List Text → Option (List Text) → Option (List Text)
  union_with seen none = none
  union_with seen (some tables) = some (add_all seen tables)

  abbrev pub Union : Type 0
  Union = D → Answer (Option (List Text)) × D

  abbrev pub union_next : Option (List Text) → (List Text → Union) → Union
  union_next none rest d = (ok none, d)
  union_next (some seen) rest d = rest seen d

  -- The tables that reference one of the tables, with those of `seen`.
  unfoldable pub union_graphs : List Text → List Text → Union
  unfolding references_graph_for_table add_all
  union_graphs [] seen d = (ok (some seen), d)
  union_graphs (table ∷ tables) seen d =
      continue (references_graph_for_table catalogue table d)
        (λ graph. union_next (union_with seen graph) (union_graphs tables))

  abbrev pub statements_of : Style → Bool → Option (List Text) → Option (List Text)
  statements_of style reset_sequences none = none
  statements_of style reset_sequences (some targets) =
      some (flush_statements style reset_sequences targets)

  -- `sql_flush`. The answer `none` stands for a worklist that ran out of fuel.
  unfoldable pub sql_flush : Style → List Text → Bool → Bool → Union
  unfolding union_graphs add_all flush_statements
  sql_flush style tables reset_sequences allow_cascade d =
      if allow_cascade
      then continue (union_graphs (add_all [] tables) [] d)
          (λ targets d'. (ok (statements_of style reset_sequences targets), d'))
      else (ok (some (flush_statements style reset_sequences (add_all [] tables))), d)
