-- ===== src/ForeignKeys/Resolution.antt =====
-- Which columns a foreign key refers to, and what identifies a row that violates one.
use django_pyturso.Exec.{Answer, ok, raised, database_error}
use django_pyturso.ForeignKeys.{
  ForeignKeyRow, declared, get_elem?, first_unshadowed, source_identity, rowid_names, qualified,
}
use django_pyturso.Prelude.{
  ◌≡◌, refl, ◌⊎◌, inl, inr, true, false, Option, none, some, List, [], ◌∷◌, map, Text, contains,
  arith, Bool-cases, text_eq_refl,
}

-- The column that a row declares, or the one of the primary key at its sequence number.
abbrev pub Refers : List Text → ForeignKeyRow → Text → Type 0
Refers primary row column =
    (declared row.target ≡ some column)
    ⊎ ((declared row.target ≡ none) × (get_elem? primary row.seq ≡ some column))

abbrev pub AllRefer : List Text → List ForeignKeyRow → List Text → Type 0
AllRefer primary [] [] = Unit
AllRefer primary (row ∷ rows) (column ∷ columns) =
    Refers primary row column × AllRefer primary rows columns
AllRefer primary _ _ = ⊥

-- What an answer says of the rows.
abbrev pub AnswersFor : List Text → List ForeignKeyRow → Answer (List Text) → Type 0
AnswersFor primary rows (ok columns) = AllRefer primary rows columns
AnswersFor primary rows (raised x) = x ≡ database_error

-- The answer of the rows without a column that is missing.
abbrev DeclaredBy : List Text → List ForeignKeyRow → Option (List Text) → Type 0
DeclaredBy primary rows none = Unit
DeclaredBy primary rows (some columns) = AllRefer primary rows columns

-- A name for the row's identity: one of the three, which no column of the table shadows.
abbrev pub Identifies : (Text → Text) → List Text → List Text → Type 0
Identifies casefold columns names =
    (rowid : Text) × (names ≡ rowid ∷ [])
    × (contains rowid rowid_names ≡ true)
    × (contains (casefold rowid) (map casefold columns) ≡ false)

first_unshadowed_lem :
    (casefold : Text → Text) (columns candidates : List Text)
    → (first_unshadowed casefold columns candidates ≡ none)
      ⊎ ((r : Text) × (first_unshadowed casefold columns candidates ≡ some r)
          × (contains r candidates ≡ true)
          × (contains (casefold r) (map casefold columns) ≡ false))
unfolding first_unshadowed contains
first_unshadowed_lem casefold columns [] = inl refl
first_unshadowed_lem casefold columns (c ∷ cs) =
    elim (Bool-cases (contains (casefold c) (map casefold columns))) [
      | inr free ↦ inr (c, ground (arith, free), ground (arith, text_eq_refl c), free)
      | inl taken ↦ elim (first_unshadowed_lem casefold columns cs) [
        | inl e ↦ inl (ground (arith, taken, e))
        | inr (r, e, m, free) ↦ inr (r, ground (arith, taken, e), ground (arith, m), free)
      ]
    ]

-- Without a primary key, a row is identified by one of the names `rowid`, `_rowid_` and `oid` that
-- no column of the table has in any case, or `DatabaseError` is raised.
pub source_identity-Identifies :
    (casefold : Text → Text) (alias : Text) (columns : List Text)
    → (source_identity casefold alias [] columns ≡ raised database_error)
      ⊎ ((sql names : List Text) × (source_identity casefold alias [] columns ≡ ok (sql, names))
          × Identifies casefold columns names)
unfolding source_identity
source_identity-Identifies casefold alias columns =
    elim (first_unshadowed_lem casefold columns rowid_names) [
      | inl e ↦ inl (ground (arith, e))
      | inr (r, e, m, free) ↦
          inr (qualified alias r ∷ [], r ∷ [], ground (arith, e), (r, refl, m, free))
    ]
