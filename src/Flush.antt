-- ===== src/Flush.antt =====
-- Which tables `flush` empties: `_references_graph_for_table`, `sql_flush` and
-- `sequence_reset_by_name_sql` of src/django_pyturso/operations.py. A set is a list without repeats;
-- its order, which Python leaves open, is that of the first occurrences.
pub mod Sorting
pub mod Reach
pub mod Statements
pub mod Sets
pub mod Deletes
use django_pyturso.Exec.{Answer, ok, raised, continue}
use django_pyturso.Flush.Sorting.{insert}
use django_pyturso.Identifiers.{identifier_key, quote_name, quote_text}
use django_pyturso.Prelude.{
  ℕ, zero, suc, ◌+◌, Bool, true, false, Option, none, some, List, [], ◌∷◌, ◌++◌, map, Text, codes,
  text_eq, contains, length, if◌then◌else◌,
}

-- What is read through the cursor: the introspection's `table_names`, and the third column of the
-- rows that a pragma statement answers. `D` is the state behind the cursor.
pub record Catalogue : Type 1 where
  pub D : Type 0
  pub table_names : D → Answer (List Text) × D
  pub third_column : Text → D → Answer (List Text) × D

-- `referencing[a]` contains `b`: the foreign keys as pairs of the referenced table and the other.
abbrev pub Edges : Type 0
Edges = List (Text × Text)

-- `table_names.get(key, default)`, where the last table with a key is the one that counts.
unfoldable pub get_table : Text → List Text → Text → Text
unfolding text_eq identifier_key
get_table key [] default = default
get_table key (t ∷ ts) default =
    get_table key ts (if text_eq (identifier_key t) key then t else default)

abbrev pub resolve : List Text → Text → Text
resolve tables raw = get_table (identifier_key raw) tables raw

-- `sorted(referencing.get(current, ()))`
unfoldable pub referencing : Text → Edges → List Text
unfolding text_eq insert
referencing current [] = []
referencing current ((target, candidate) ∷ edges) =
    let rest = referencing current edges in
    if text_eq target current then insert candidate rest else rest

-- The worklist loop: what it appends to `result` from a state of `pending`, its top first, and
-- of `seen`.
unfoldable pub visit : ℕ → Edges → List Text → List Text → Option (List Text)
unfolding referencing contains
visit zero edges pending seen = none
visit (suc n) edges [] seen = some []
visit (suc n) edges (current ∷ pending) seen = elim (contains current seen) [
  | true ↦ visit n edges pending seen
  | false ↦ elim (visit n edges (referencing current edges ++ pending) (current ∷ seen)) [
    | none ↦ none
    | some result ↦ some (current ∷ result)
  ]
]

unfoldable pub references_from : Edges → Text → Option (List Text)
unfolding visit
references_from edges table = visit (2 + length edges) edges (table ∷ []) []

module _ (catalogue : Catalogue) where
  open catalogue use {D, table_names, third_column}

  -- The foreign keys of one table.
  abbrev pub edges_to : List Text → Text → List Text → Edges
  edges_to tables candidate targets = map (λ raw. (resolve tables raw, candidate)) targets

  abbrev pub pragma : Text → Text
  pragma table = codes "PRAGMA foreign_key_list(" ++ quote_name table ++ codes ")"

  unfoldable pub read_edges : List Text → List Text → D → Answer Edges × D
  unfolding get_table quote_name
  read_edges tables [] d = (ok [], d)
  read_edges tables (candidate ∷ rest) d =
      continue (third_column (pragma candidate) d) (λ targets d'.
        continue (read_edges tables rest d')
          (λ edges d''. (ok (edges_to tables candidate targets ++ edges), d'')))

  -- `_references_graph_for_table`
  unfoldable pub references_graph_for_table : Text → D → Answer (Option (List Text)) × D
  unfolding read_edges references_from get_table
  references_graph_for_table table d = continue (table_names d) (λ tables d'.
      continue (read_edges tables tables d')
        (λ edges d''. (ok (references_from edges (resolve tables table)), d'')))
