-- ===== src/Description/Assembly.antt =====
-- `get_constraints` of src/django_pyturso/introspection.py: the constraints of the stored statement,
-- the indexes, the primary key and the foreign keys in one dictionary.
use django_pyturso.Constraints.Table.{ConstraintDict}
use django_pyturso.Decimals.{decimal}
use django_pyturso.Exec.{Answer, ok, raised, ◌then_do◌}
use django_pyturso.ForeignKeys.{ForeignKeyRow, resolve_foreign_key_target_columns}
use django_pyturso.Prelude.{
  ℕ, Bool, Option, none, some, List, [], ◌∷◌, ◌++◌, map, Text, codes, text_eq, if◌then◌else◌, Dict,
  get_item, set_item,
}

-- A row of `PRAGMA index_xinfo`: the column's name, whether it is descending, and whether it is a key
-- column.
pub record IndexColumn : Type 0 where
  pub name : Option Text
  pub is_descending : Bool
  pub is_key : Bool

-- A row of `PRAGMA index_list` with the stored SQL of the index and its columns.
pub record IndexRow : Type 0 where
  pub name : Text
  pub is_unique : Bool
  pub definition : Option Text
  pub columns : List IndexColumn

-- An entry of the dictionary, with what differs among the entries of a kind. The orders of an index
-- say whether a column is descending.
pub data Entry : Type 0 where
  parsed : ConstraintDict → Entry
  index : (columns : List Text) (orders : List Bool) (unique : Bool) (definition : Text) → Entry
  primary : (columns : List Text) → Entry
  foreign : (columns : List Text) (table column : Text) → Entry

-- `str(index_info[2] or "")`
abbrev pub column_name : Option Text → Text
column_name none = []
column_name (some t) = t

abbrev pub key_columns : List IndexColumn → List Text
key_columns [] = []
key_columns (c ∷ columns) =
    let rest = key_columns columns in if c.is_key then column_name c.name ∷ rest else rest

abbrev pub orders_of : List IndexColumn → List Bool
orders_of [] = []
orders_of (c ∷ columns) =
    let rest = orders_of columns in if c.is_key then c.is_descending ∷ rest else rest

abbrev pub index_entry : IndexRow → Option Entry
index_entry row = elim row.definition [
  | none ↦ none
  | some definition ↦
      some (index (key_columns row.columns) (orders_of row.columns) row.is_unique definition)
]

abbrev pub set_entry : Text → Option Entry → Dict Entry → Dict Entry
set_entry name none constraints = constraints
set_entry name (some entry) constraints = set_item name entry constraints

-- The loop over the indexes. One without stored SQL is left out.
unfoldable pub add_indexes : List IndexRow → Dict Entry → Dict Entry
unfolding set_item
add_indexes [] constraints = constraints
add_indexes (row ∷ rows) constraints =
    add_indexes rows (set_entry row.name (index_entry row) constraints)

abbrev pub primary_entry : Option (List Text) → Option Entry
primary_entry none = none
primary_entry (some columns) = some (primary columns)

-- `f"fk_{foreign_key_id}"`
abbrev pub foreign_key_name : ℕ → Text
foreign_key_name id = codes "fk_" ++ decimal id

abbrev pub ForeignKey : Type 0
ForeignKey = ℕ × List ForeignKeyRow

-- The entry of a foreign key, from its target table and columns. A foreign key has a row.
abbrev pub foreign_entry : List ForeignKeyRow → List Text → Option Entry
foreign_entry (row ∷ rows) (column ∷ _) =
    some (foreign (map (λ r. r.source) (row ∷ rows)) row.table column)
foreign_entry _ _ = none

abbrev pub target_of : List ForeignKeyRow → Text
target_of [] = []
target_of (row ∷ rows) = row.table

abbrev pub parsed_entries : Dict ConstraintDict → Dict Entry
parsed_entries = map (λ item. (item.0, parsed item.1))

abbrev pub or_else : Option Entry → Option Entry → Option Entry
or_else (some entry) other = some entry
or_else none other = other

abbrev pub if_named : Text → Text → Option Entry → Option Entry
if_named name other entry = if text_eq other name then entry else none

abbrev pub index_named : Text → List IndexRow → Option Entry
index_named name [] = none
index_named name (row ∷ rows) =
    or_else (index_named name rows) (if_named name row.name (index_entry row))

abbrev pub answered : Answer (Option Entry) → Option Entry
answered (ok entry) = entry
answered (raised x) = none

module _ (primary_keys : Text → List Text) where
  -- The entry of a foreign key. `primary_keys` is the primary key of a table, empty for `None`.
  abbrev pub read_foreign_key : List ForeignKeyRow → Answer (Option Entry)
  read_foreign_key rows =
      resolve_foreign_key_target_columns (primary_keys (target_of rows)) rows then_do λ columns.
      ok (foreign_entry rows columns)

  -- The loop over the foreign keys.
  unfoldable pub add_foreign_keys : List ForeignKey → Dict Entry → Answer (Dict Entry)
  unfolding set_item decimal
  add_foreign_keys [] constraints = ok constraints
  add_foreign_keys ((id, rows) ∷ keys) constraints = read_foreign_key rows then_do λ entry.
      add_foreign_keys keys (set_entry (foreign_key_name id) entry constraints)

  -- `get_constraints`
  unfoldable pub get_constraints :
      Dict ConstraintDict
      → List IndexRow
      → Option (List Text)
      → List ForeignKey
      → Answer (Dict Entry)
  unfolding add_indexes add_foreign_keys
  get_constraints constraints indexes key keys = add_foreign_keys keys (
      set_entry (codes "__primary__") (primary_entry key)
        (add_indexes indexes (parsed_entries constraints)))

  abbrev pub foreign_key_named : Text → List ForeignKey → Option Entry
  foreign_key_named name [] = none
  foreign_key_named name ((id, rows) ∷ keys) =
      or_else (foreign_key_named name keys)
        (if_named name (foreign_key_name id) (answered (read_foreign_key rows)))

  -- Which entry a name has: the last foreign key of that name, the primary key, the last index of that
  -- name with stored SQL, or the parsed constraint.
  abbrev pub entry_named :
      Text
      → Dict ConstraintDict
      → List IndexRow
      → Option (List Text)
      → List ForeignKey
      → Option Entry
  entry_named name constraints indexes key keys = or_else (foreign_key_named name keys) (
      or_else (if_named name (codes "__primary__") (primary_entry key))
        (or_else (index_named name indexes) (get_item name (parsed_entries constraints))))
