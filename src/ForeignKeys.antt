-- ===== src/ForeignKeys.antt =====
-- Foreign keys: `_foreign_key_rows` and `_resolve_foreign_key_target_columns` of
-- src/django_pyturso/introspection.py, and the constraint checks of src/django_pyturso/base.py.
pub mod Resolution
pub mod Enforcement
use django_pyturso.Exec.{
  Exc, Answer, ok, raised, Exec, pure, raise, lift, ◌>>=◌, ◌>>◌, continue, database_error,
  integrity_error, not_supported, value_error,
}
use django_pyturso.Identifiers.{quote_name}
use django_pyturso.Prelude.{
  ℕ, zero, suc, Bool, true, false, not, ◌&&◌, ◌||◌, Option, none, some, List, [], ◌∷◌, ◌++◌, map,
  Text, codes, contains, length, ◌==◌, leb, if◌then◌else◌,
}

-- A row of `PRAGMA foreign_key_list`: its first five columns.
pub record ForeignKeyRow : Type 0 where
  pub id : ℕ
  pub seq : ℕ
  pub table : Text
  pub source : Text
  pub target : Option Text

-- `grouped[row[0]].append(row)`
unfoldable pub append_row :
    ForeignKeyRow → List (ℕ × List ForeignKeyRow) → List (ℕ × List ForeignKeyRow)
append_row row [] = (row.id, row ∷ []) ∷ []
append_row row ((id, rows) ∷ groups) =
    let rest = append_row row groups in
    if id == row.id then (id, rows ++ row ∷ []) ∷ groups else (id, rows) ∷ rest

unfoldable pub group_rows :
    List ForeignKeyRow → List (ℕ × List ForeignKeyRow) → List (ℕ × List ForeignKeyRow)
unfolding append_row
group_rows [] groups = groups
group_rows (row ∷ rows) groups = group_rows rows (append_row row groups)

unfoldable pub insert_row : ForeignKeyRow → List ForeignKeyRow → List ForeignKeyRow
insert_row row [] = row ∷ []
insert_row row (r ∷ rows) =
    let rest = insert_row row rows in if leb row.seq r.seq then row ∷ r ∷ rows else r ∷ rest

-- `rows.sort(key=lambda row: row[1])`, which is stable.
unfoldable pub sort_rows : List ForeignKeyRow → List ForeignKeyRow
unfolding insert_row
sort_rows [] = []
sort_rows (row ∷ rows) = insert_row row (sort_rows rows)

-- `_foreign_key_rows`, on the rows that the pragma answers.
unfoldable pub foreign_key_rows : List ForeignKeyRow → List (ℕ × List ForeignKeyRow)
unfolding group_rows sort_rows
foreign_key_rows rows = map (λ g. (g.0, sort_rows g.1)) (group_rows rows [])

-- `column not in (None, "")`
abbrev pub declared : Option Text → Option Text
declared none = none
declared (some []) = none
declared (some (c ∷ column)) = some (c ∷ column)

-- The declared columns, if all are.
unfoldable pub all_declared : List ForeignKeyRow → Option (List Text)
all_declared [] = some []
all_declared (row ∷ rows) = elim (declared row.target) [
  | none ↦ none
  | some column ↦ elim (all_declared rows) [ none ↦ none | some rest ↦ some (column ∷ rest) ]
]

abbrev pub get_elem? : List Text → ℕ → Option Text
get_elem? [] n = none
get_elem? (x ∷ xs) zero = some x
get_elem? (x ∷ xs) (suc n) = get_elem? xs n

-- The column of one row. A sequence number past the primary key is an error also if the
-- column is declared.
abbrev pub resolve_column : Option Text → Option Text → Option Text
resolve_column column none = none
resolve_column none (some primary) = some primary
resolve_column (some column) (some primary) = some column

-- The loop over the rows.
unfoldable pub resolve_rows : List Text → List ForeignKeyRow → Answer (List Text)
resolve_rows primary [] = ok []
resolve_rows primary (row ∷ rows) =
    elim (resolve_column (declared row.target) (get_elem? primary row.seq)) [
      | none ↦ raised database_error
      | some column ↦ elim (resolve_rows primary rows) [
        | raised x ↦ raised x
        | ok rest ↦ ok (column ∷ rest)
      ]
    ]

-- `_resolve_foreign_key_target_columns`, where `primary` is what `get_primary_key_columns(…) or []`
-- answers for the target table. The source reads it only if a column is not declared.
unfoldable pub resolve_foreign_key_target_columns :
    List Text → List ForeignKeyRow → Answer (List Text)
unfolding all_declared resolve_rows
resolve_foreign_key_target_columns primary rows = elim (all_declared rows) [
  | some columns ↦ ok columns
  | none ↦
      if length primary == length rows then resolve_rows primary rows else raised database_error
]

-- The first of the names for the row's identity that no column has. `casefold` is `str.casefold`.
unfoldable pub first_unshadowed : (Text → Text) → List Text → List Text → Option Text
unfolding contains
first_unshadowed casefold columns [] = none
first_unshadowed casefold columns (candidate ∷ rest) =
    let later = first_unshadowed casefold columns rest in
    if contains (casefold candidate) (map casefold columns) then later else some candidate

abbrev pub rowid_names : List Text
rowid_names = codes "rowid" ∷ codes "_rowid_" ∷ codes "oid" ∷ []

abbrev pub qualified : Text → Text → Text
qualified alias column = alias ++ codes "." ++ quote_name column

abbrev pub rowid_identity : Text → Option Text → Answer (List Text × List Text)
rowid_identity alias none = raised database_error
rowid_identity alias (some rowid) = ok (qualified alias rowid ∷ [], rowid ∷ [])

-- `_source_identity`: SQL and names of the columns that identify a row of the table, from its
-- primary key and the names of its columns. The source reads these only without a primary key.
unfoldable pub source_identity :
    (Text → Text) → Text → List Text → List Text → Answer (List Text × List Text)
unfolding first_unshadowed quote_name
source_identity casefold alias (c ∷ primary) columns =
    ok (map (qualified alias) (c ∷ primary), c ∷ primary)
source_identity casefold alias [] columns =
    rowid_identity alias (first_unshadowed casefold columns rowid_names)

-- `separator.join(texts)`
unfoldable pub join : Text → List Text → Text
join separator [] = []
join separator (x ∷ []) = x
join separator (x ∷ y ∷ rest) = x ++ separator ++ join separator (y ∷ rest)

-- `f"{target} = +{source}"` for each pair of columns. `zip(…, strict=True)` answers `none` where the
-- lengths differ.
unfoldable pub join_conditions : List Text → List Text → Option (List Text)
join_conditions [] [] = some []
join_conditions (source ∷ sources) (target ∷ targets) = elim (join_conditions sources targets) [
  | none ↦ none
  | some rest ↦ some ((target ++ codes " = +" ++ source) ∷ rest)
]
join_conditions _ _ = none

abbrev pub child_alias : Text
child_alias = quote_name (codes "django_pyturso_child")

abbrev pub parent_alias : Text
parent_alias = quote_name (codes "django_pyturso_parent")

abbrev pub is_not_null : Text → Text
is_not_null column = column ++ codes " IS NOT NULL"

-- The query of `_check_foreign_key`, from the identity columns' SQL, the tables and the conditions.
unfoldable pub violation_query : Text → Text → List Text → List Text → List Text → Text
unfolding quote_name join
violation_query table target_table identity_sql source_sql conditions =
    codes "SELECT "
    ++ join (codes ", ") (identity_sql ++ source_sql)
    ++ codes " FROM "
    ++ quote_name table
    ++ codes " AS "
    ++ child_alias
    ++ codes " WHERE "
    ++ join (codes " AND ") (map is_not_null source_sql)
    ++ codes " AND NOT EXISTS (SELECT 1 FROM "
    ++ quote_name target_table
    ++ codes " AS "
    ++ parent_alias
    ++ codes " WHERE "
    ++ join (codes " AND ") conditions
    ++ codes ") LIMIT 1"

-- What the checks call: the introspection's methods, and a query with `fetchone`, which says
-- whether there is a row.
pub record CheckCalls : Type 1 where
  pub D : Type 0
  pub casefold : Text → Text
  pub table_names : D → Answer (List Text) × D
  pub foreign_key_list : Text → D → Answer (List ForeignKeyRow) × D
  pub primary_key_columns : Text → D → Answer (List Text) × D
  pub column_names : Text → D → Answer (List Text) × D
  pub has_row : Text → D → Answer Bool × D

module _ (calls : CheckCalls) where
  open calls use {
    D, casefold, table_names, foreign_key_list, primary_key_columns, column_names, has_row,
  }

  abbrev pub targets_of : Text → List ForeignKeyRow → Exec D (List Text)
  targets_of target rows = elim (all_declared rows) [
    | some columns ↦ pure columns
    | none ↦ primary_key_columns target >>= λ primary.
        lift (resolve_foreign_key_target_columns primary rows)
  ]

  abbrev pub identity_from : Text → List Text → Exec D (List Text × List Text)
  identity_from table [] =
      column_names table >>= λ columns. lift (source_identity casefold child_alias [] columns)
  identity_from table (c ∷ primary) = lift (source_identity casefold child_alias (c ∷ primary) [])

  abbrev pub run_check :
      Text → Text → List Text → List Text → Option (List Text) → Exec D (Unit {0})
  run_check table target identity_sql source_sql none = raise value_error
  run_check table target identity_sql source_sql (some conditions) =
      has_row (violation_query table target identity_sql source_sql conditions) >>= λ found.
      if found then raise integrity_error else pure tt

  -- `_check_foreign_key`, for a foreign key to the table `target`.
  unfoldable pub check_foreign_key : Text → Text → List ForeignKeyRow → Exec D (Unit {0})
  unfolding resolve_foreign_key_target_columns source_identity join_conditions violation_query
      all_declared quote_name
  check_foreign_key table target rows = do
    targets ← targets_of target rows
    primary ← primary_key_columns table
    identity ← identity_from table primary
    let sources = map (λ row. qualified child_alias row.source) rows
    run_check table target identity.0 sources
        (join_conditions sources (map (qualified parent_alias) targets))

  unfoldable pub check_groups : Text → List (ℕ × List ForeignKeyRow) → Exec D (Unit {0})
  unfolding check_foreign_key
  check_groups table [] = pure tt
  check_groups table ((id, []) ∷ groups) = check_groups table groups
  check_groups table ((id, row ∷ rows) ∷ groups) =
      check_foreign_key table row.table (row ∷ rows) >> check_groups table groups

  unfoldable pub check_tables : List Text → Exec D (Unit {0})
  unfolding check_groups foreign_key_rows
  check_tables [] = pure tt
  check_tables (table ∷ tables) =
      (foreign_key_list table >>= λ rows. check_groups table (foreign_key_rows rows))
      >> check_tables tables

  -- `check_constraints`, for the tables that are named or for all.
  unfoldable pub check_constraints : Option (List Text) → Exec D (Unit {0})
  unfolding check_tables
  check_constraints (some names) = check_tables names
  check_constraints none = table_names >>= λ names. check_tables names
