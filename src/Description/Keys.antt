-- ===== src/Description/Keys.antt =====
-- Which columns a description shows as the primary key.
use django_pyturso.Constraints.{SqlTokens}
use django_pyturso.Description.{
  ColumnRow, FieldInfo, is_visible, is_key, without_key, count_keys, unless_composite,
  describe_rows, get_table_description, Bool,
}
use django_pyturso.Exec.{Answer, ok, raised, database_error}
use django_pyturso.Prelude.{
  ℕ, suc, ◌≡◌, refl, ◌∙◌, ap, ◌≤◌, ◌<◌, ◌&&◌, Option, List, [], ◌∷◌, map, Text, ltb, ◌==◌,
  if◌then◌else◌, Dict, arith, Bool-cases, inl, inr,
}

-- How many visible columns are in the primary key.
abbrev pub key_length : List ColumnRow → ℕ
key_length [] = 0
key_length (row ∷ rows) =
    let rest = key_length rows in if is_visible row && is_key row then suc rest else rest

-- The visible columns by their names, each with whether it is in the primary key and is the only
-- visible column of it, for a key with `n` visible columns.
abbrev pub marks : ℕ → List ColumnRow → List (Text × Bool)
marks n [] = []
marks n (row ∷ rows) =
    let rest = marks n rows in
    if is_visible row then (row.name, is_key row && (n == 1)) ∷ rest else rest

-- What a description says of its columns.
abbrev pub shown : List FieldInfo → List (Text × Bool)
shown infos = map (λ i. (i.name, i.pk)) infos

-- A table without rows does not exist. Otherwise each visible column is described, in the order of
-- the rows, and a column is marked as the key exactly if no other visible column is in the key.
pub data Describes : List ColumnRow → Answer (List FieldInfo) → Type 0 where
  unknown : Describes [] (raised database_error)
  described :
      (row : ColumnRow) (rows : List ColumnRow) (infos : List FieldInfo)
      → shown infos ≡ marks (key_length (row ∷ rows)) (row ∷ rows)
      → Describes (row ∷ rows) (ok infos)

module _ (tokens : SqlTokens) (casefold : Text → Text) where
  open tokens use {Token}

  module _ (sizes : Dict ℕ) (collations : Dict (Option Text)) (json_columns : List Text) where
    abbrev infos_of : List ColumnRow → List FieldInfo
    infos_of = describe_rows tokens casefold sizes collations json_columns

    count_keys-describe_rows :
        (rows : List ColumnRow) → count_keys (infos_of rows) ≡ key_length rows
    unfolding describe_rows count_keys
    count_keys-describe_rows [] = refl
    count_keys-describe_rows (row ∷ rows) = elim (Bool-cases (is_visible row)) [
      | inl e ↦ simp e (ground (arith, count_keys-describe_rows rows))
      | inr e ↦ simp e (count_keys-describe_rows rows)
    ]

    -- Of a key with at most one visible column, each visible column shows whether it is in it.
    shown-describe_rows :
        (n : ℕ) (rows : List ColumnRow)
        → key_length rows ≤ n
        → n ≤ 1
        → shown (infos_of rows) ≡ marks n rows
    unfolding describe_rows
    shown-describe_rows n [] h k = refl
    shown-describe_rows n (row ∷ rows) h k = elim (Bool-cases (is_visible row)) [
      | inl e ↦ simp e (
          ap (λ b. (row.name, b) ∷ shown (infos_of rows)) (ground (arith, h, k, e))
          ∙ ap (◌∷◌ (row.name, is_key row && (n == 1)))
              (shown-describe_rows n rows (ground (arith, h, e)) k))
      | inr e ↦ simp e (shown-describe_rows n rows (ground (arith, h, e)) k)
    ]

    shown-without_key :
        (n : ℕ) (rows : List ColumnRow)
        → 1 < n
        → shown (map without_key (infos_of rows)) ≡ marks n rows
    unfolding describe_rows
    shown-without_key n [] h = refl
    shown-without_key n (row ∷ rows) h = elim (Bool-cases (is_visible row)) [
      | inl e ↦ simp e (
          ap (λ b. (row.name, b) ∷ shown (map without_key (infos_of rows))) (ground (arith, h))
          ∙ ap (◌∷◌ (row.name, is_key row && (n == 1))) (shown-without_key n rows h))
      | inr e ↦ simp e (shown-without_key n rows h)
    ]

    shown-unless_composite :
        (rows : List ColumnRow)
        → shown (unless_composite (infos_of rows)) ≡ marks (key_length rows) rows
    shown-unless_composite rows = elim (Bool-cases (ltb 1 (count_keys (infos_of rows)))) [
      | inl many ↦ simp many (
          shown-without_key (key_length rows) rows
            (ground (arith, many, count_keys-describe_rows rows)))
      | inr few ↦ simp few (
          shown-describe_rows (key_length rows) rows (ground arith)
            (ground (arith, few, count_keys-describe_rows rows)))
    ]

  -- The description of a table has the columns that are not hidden, in their order. A column is marked
  -- as the primary key exactly if it is in the primary key and no other column that is not hidden is
  -- in it. A table with no rows in the pragma's answer raises a `DatabaseError`.
  pub get_table_description-Describes :
      (ts with_comments : List Token) (rows : List ColumnRow)
      → Describes rows (get_table_description tokens casefold ts with_comments rows)
  unfolding get_table_description
  get_table_description-Describes ts with_comments [] = unknown
  get_table_description-Describes ts with_comments (row ∷ rows) =
      described row rows _ (shown-unless_composite _ _ _ (row ∷ rows))
