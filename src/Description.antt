-- ===== src/Description.antt =====
-- The description of a table: `get_table_description`, `get_sequences` and
-- `get_primary_key_columns` of src/django_pyturso/introspection.py, on the rows that the pragmas
-- answer and the tokens of the stored statement.
pub mod Columns
pub mod Sizes
pub mod Keys
pub mod Assembly
pub mod Entries
use django_pyturso.Constraints.{SqlTokens}
use django_pyturso.Description.Columns.{get_column_collations, get_column_sizes, get_json_columns}
use django_pyturso.Exec.{Answer, ok, raised, database_error}
use django_pyturso.FieldTypes.{get_field_size}
use django_pyturso.Prelude.{
  ℕ, zero, suc, Bool, true, false, not, ◌&&◌, ◌||◌, Option, none, some, List, [], ◌∷◌, ◌++◌, map,
  Text, codes, text_eq, contains, ◌==◌, leb, ltb, if◌then◌else◌, Dict, get_item,
}

-- A row of `PRAGMA table_xinfo`.
pub record ColumnRow : Type 0 where
  pub name : Text
  pub data_type : Text
  pub not_null : Bool
  pub default : Option Text
  pub pk_position : ℕ
  pub hidden : ℕ

-- What differs among the columns of `FieldInfo`.
pub record FieldInfo : Type 0 where
  pub name : Text
  pub type_code : Text
  pub display_size : Option ℕ
  pub null_ok : Bool
  pub default : Option Text
  pub collation : Option Text
  pub pk : Bool
  pub has_json_constraint : Bool

abbrev pub size_or : Option ℕ → Option ℕ → Option ℕ
size_or (some size) other = some size
size_or none other = other

-- `collations.get(name)`
abbrev pub collation_of : Option (Option Text) → Option Text
collation_of none = none
collation_of (some collation) = collation

-- `hidden in {0, 2, 3}`
abbrev pub is_visible : ColumnRow → Bool
is_visible row = (row.hidden == 0) || (row.hidden == 2) || (row.hidden == 3)

abbrev pub is_key : ColumnRow → Bool
is_key row = not (row.pk_position == 0)

-- `info._replace(pk=False)`
abbrev pub without_key : FieldInfo → FieldInfo
without_key info = record info { pk = false }

unfoldable pub count_keys : List FieldInfo → ℕ
count_keys [] = 0
count_keys (info ∷ infos) = let n = count_keys infos in if info.pk then suc n else n

abbrev pub unless_composite : List FieldInfo → List FieldInfo
unless_composite infos = if ltb 1 (count_keys infos) then map without_key infos else infos

module _ (tokens : SqlTokens) (casefold : Text → Text) where
  open tokens use {Token}

  module _ (sizes : Dict ℕ) (collations : Dict (Option Text)) (json_columns : List Text) where
    abbrev pub describe : ColumnRow → FieldInfo
    describe row = record {
      name = row.name;
      type_code = row.data_type;
      display_size = size_or (get_item row.name sizes) (get_field_size row.data_type);
      null_ok = not row.not_null;
      default = row.default;
      collation = collation_of (get_item row.name collations);
      pk = is_key row;
      has_json_constraint = contains row.name json_columns;
    }

    unfoldable pub describe_rows : List ColumnRow → List FieldInfo
    unfolding get_item get_field_size contains
    describe_rows [] = []
    describe_rows (row ∷ rows) =
        let rest = describe_rows rows in if is_visible row then describe row ∷ rest else rest

  -- `get_table_description`, from the tokens without blanks and comments and those with comments.
  unfoldable pub get_table_description :
      List Token → List Token → List ColumnRow → Answer (List FieldInfo)
  unfolding describe_rows count_keys get_column_sizes get_column_collations get_json_columns
  get_table_description ts with_comments [] = raised database_error
  get_table_description ts with_comments (row ∷ rows) = ok (
      unless_composite (
        describe_rows (get_column_sizes tokens ts) (get_column_collations tokens ts)
          (get_json_columns tokens casefold (map (λ r. r.name) (row ∷ rows)) with_comments)
          (row ∷ rows)))

-- A row of `PRAGMA table_info`, as far as it is used: the name and the position in the primary key.
abbrev pub KeyRow : Type 0
KeyRow = Text × ℕ

unfoldable pub insert_key : KeyRow → List KeyRow → List KeyRow
insert_key row [] = row ∷ []
insert_key row (r ∷ rows) =
    let rest = insert_key row rows in if leb row.1 r.1 then row ∷ r ∷ rows else r ∷ rest

-- The rows with a position, sorted by it. The order of equal ones is kept.
unfoldable pub sorted_keys : List KeyRow → List KeyRow
unfolding insert_key
sorted_keys [] = []
sorted_keys (row ∷ rows) =
    let rest = sorted_keys rows in if row.1 == 0 then rest else insert_key row rest

abbrev pub names_of : List KeyRow → Option (List Text)
names_of [] = none
names_of (row ∷ rows) = some (map (λ r. r.0) (row ∷ rows))

-- `get_primary_key_columns`
unfoldable pub get_primary_key_columns : List KeyRow → Option (List Text)
unfolding sorted_keys
get_primary_key_columns rows = names_of (sorted_keys rows)

abbrev pub one_column : Text → Option (List Text) → List (Text × Text)
one_column table (some (column ∷ [])) = (table, column) ∷ []
one_column table _ = []

-- `get_sequences`: the table with its column.
unfoldable pub get_sequences : Text → List KeyRow → List (Text × Text)
unfolding get_primary_key_columns
get_sequences table rows = one_column table (get_primary_key_columns rows)
