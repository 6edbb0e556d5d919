-- ===== src/Remake/Data.antt =====
-- What the rows of a table that is remade keep.
use django_pyturso.Exec.{then_do-rule, ◌then_do◌, Answer, ok, raised}
use django_pyturso.Identifiers.{quote_name}
use django_pyturso.Prelude.{
  ◌≡◌, ap, ◌⊎◌, inl, inr, Bool, true, false, not, ◌&&◌, ◌||◌, Option, none, some, List, [], ◌∷◌,
  Text, text_eq, text_eq_iff, Dict, get_item, set_item, pop_item, get_item-set_item,
  get_item-pop_item, arith, Bool-cases, Option-cases,
}
use django_pyturso.Remake.{
  Field, Model, Copying, Defaults, Alteration, column_of, add_columns, start_copying, adds_key,
  create, alter, alter_all, delete, delete_item, plan_copying, copied_from, pop_column,
  add_composite, add_fields,
}

-- The field has this column.
abbrev pub is_column : Text → Option Text → Bool
is_column c none = false
is_column c (some d) = text_eq d c

-- One of the fields that are not generated has this column.
abbrev pub has_column : Text → List Field → Bool
has_column c [] = false
has_column c (field ∷ fields) =
    (not field.generated && is_column c field.column) || has_column c fields

abbrev pub names_column : Text → Option Field → Bool
names_column c none = false
names_column c (some field) = is_column c field.column

-- One of the changed fields has this column, before or after.
abbrev pub alters_column : Text → List Alteration → Bool
alters_column c [] = false
alters_column c ((old, new) ∷ rest) =
    is_column c old.column || is_column c new.column || alters_column c rest

-- A column is copied from this expression, if the computation returned.
abbrev pub Copies : Text → Option Text → Answer Copying → Type 0
Copies c from (ok s) = get_item c s.mapping ≡ from
Copies c from (raised x) = Unit

abbrev CopiesIn : Text → Option Text → Answer (Dict Text) → Type 0
CopiesIn c from (ok m) = get_item c m ≡ from
CopiesIn c from (raised x) = Unit

pub column-column_of :
    (field : Field) (column : Text) → column_of field ≡ ok column → field.column ≡ some column
unfolding column_of
column-column_of field column h = elim (Option-cases field.column) [
  | inl e ↦ ground (arith, e)
  | inr (d, e) ↦ ground (arith, e)
]

-- The column is copied from itself already, or will be.
abbrev IsOwn : Text → List Field → Dict Text → Type 0
IsOwn c fields m = (get_item c m ≡ some (quote_name c)) ⊎ (has_column c fields ≡ true)

set_item-IsOwn :
    (c d : Text) (field : Field) (fields : List Field) (m : Dict Text)
    → field.column ≡ some d
    → IsOwn c (field ∷ fields) m
    → IsOwn c fields (set_item d (quote_name d) m)
set_item-IsOwn c d field fields m e h = elim (Bool-cases (text_eq d c)) [
  | inl same ↦ inl (
      ground (
        arith,
        get_item-set_item c d (quote_name d) m,
        same,
        ap quote_name ((text_eq_iff d c).0 same),
      ))
  | inr other ↦ elim h [
    | inl k ↦ inl (ground (arith, get_item-set_item c d (quote_name d) m, other, k))
    | inr k ↦ inr (ground (arith, e, other, k))
  ]
]

add_columns-CopiesIn :
    (c : Text) (fields : List Field) (m : Dict Text)
    → IsOwn c fields m
    → CopiesIn c (some (quote_name c)) (add_columns fields m)
unfolding add_columns column_of
add_columns-CopiesIn c [] m (inl h) = h
add_columns-CopiesIn c [] m (inr h) = ground arith
add_columns-CopiesIn c (field ∷ fields) m h = elim (Bool-cases field.generated) [
  | inl g ↦ simp g (
      add_columns-CopiesIn c fields m
        (elim h [ inl k ↦ inl k | inr k ↦ inr (ground (arith, g, k)) ]))
  | inr g ↦ simp g (elim (Option-cases field.column) [
    | inl e ↦ simp e tt
    | inr (d, e) ↦ simp e (
        add_columns-CopiesIn c fields (set_item d (quote_name d) m)
          (set_item-IsOwn c d field fields m e h))
  ])
]

start_copying-Copies :
    (c : Text) (model : Model)
    → has_column c model.local_concrete_fields ≡ true
    → Copies c (some (quote_name c)) (start_copying model)
unfolding start_copying
start_copying-Copies c model h =
    built (add_columns model.local_concrete_fields [])
      (add_columns-CopiesIn c model.local_concrete_fields [] (inr h))
  where
    built :
        (a : Answer (Dict Text))
        → CopiesIn c (some (quote_name c)) a
        → Copies c (some (quote_name c)) (
            a then_do λ m. ok (record {
              body = add_composite model.composite_key (add_fields model.local_concrete_fields []);
              mapping = m;
              rename_mapping = [];
            }))
    built (ok m) k = k
    built (raised x) k = tt

pub bind-Copies :
    (c : Text) (from : Option Text) (a : Answer Copying) (f : Copying → Answer Copying)
    → Copies c from a
    → ((s : Copying) → get_item c s.mapping ≡ from → Copies c from (f s))
    → Copies c from (a then_do f)
bind-Copies c from (ok s) f h k = k s h
bind-Copies c from (raised x) f h k = tt

module _ (defaults : Defaults) (c : Text) (from : Option Text) where
  create-Copies :
      (o : Option Field) (s : Copying)
      → names_column c o ≡ false
      → get_item c s.mapping ≡ from
      → Copies c from (create defaults o s)
  unfolding create column_of
  create-Copies none s n h = h
  create-Copies (some field) s n h =
      elim (Bool-cases (not field.has_db_default && not field.generated && field.concrete)) [
        | inr y ↦ simp y h
        | inl y ↦ simp y (
            then_do-rule (Copies c from) (defaults.default_sql field) _ (λ x. tt)
              (λ default d.
                then_do-rule (Copies c from) (column_of field) _ (λ x. tt)
                  (λ column e.
                    let named = column-column_of field column e in
                    ground (arith, get_item-set_item c column default s.mapping, n, named, h))))
      ]

  delete-Copies :
      (o : Option Field) (s : Copying)
      → names_column c o ≡ false
      → get_item c s.mapping ≡ from
      → Copies c from (delete defaults o s)
  unfolding delete
  delete-Copies none s n h = h
  delete-Copies (some field) s n h =
      then_do-rule (Copies c from) (delete_item field.name s.body) _ (λ x. tt)
        (λ body e. kept field.column n)
    where
      kept :
          (o : Option Text)
          → is_column c o ≡ false
          → get_item c (pop_column defaults o s.mapping) ≡ from
      kept none k = h
      kept (some d) k = ground (arith, get_item-pop_item c d s.mapping, k, h)

  alter-Copies :
      (old new : Field) (s : Copying)
      → (is_column c old.column || is_column c new.column) ≡ false
      → get_item c s.mapping ≡ from
      → Copies c from (alter defaults old new s)
  unfolding alter column_of
  alter-Copies old new s n h =
      then_do-rule (Copies c from) (column_of old) _ (λ x. tt)
        (λ old_column e.
          let before = column-column_of old old_column e in
          let popped : get_item c (pop_item old_column s.mapping) ≡ from =
            ground (arith, get_item-pop_item c old_column s.mapping, n, before, h) in
          elim (Bool-cases new.generated) [
            | inl g ↦ simp g popped
            | inr g ↦ simp g (
                then_do-rule (Copies c from) (copied_from defaults old new old_column) _ (λ x. tt)
                  (λ expression f.
                    then_do-rule (Copies c from) (column_of new) _ (λ x. tt)
                      (λ column e2.
                        let named = column-column_of new column e2 in
                        ground (
                          arith,
                          n,
                          named,
                          popped,
                          get_item-set_item c column expression (pop_item old_column s.mapping),
                        ))))
          ])

  alter_all-Copies :
      (alterations : List Alteration) (s : Copying)
      → alters_column c alterations ≡ false
      → get_item c s.mapping ≡ from
      → Copies c from (alter_all defaults alterations s)
  unfolding alter_all
  alter_all-Copies [] s n h = h
  alter_all-Copies ((old, new) ∷ rest) s n h =
      bind-Copies c from (alter defaults old new s) _ (alter-Copies old new s (ground (arith, n)) h)
        (λ s' k. alter_all-Copies rest s' (ground (arith, n)) k)

-- When a table is remade without a new primary key, each of its columns that is not generated and
-- that the change does not name keeps its data: if the computation returns, the column is
-- copied from the column of that name. The change may add, remove and alter any other columns.
pub plan_copying-Copies :
    (defaults : Defaults) (model : Model) (create_field delete_field : Option Field)
    (alterations : List Alteration) (c : Text)
    → adds_key create_field alterations ≡ false
    → has_column c model.local_concrete_fields ≡ true
    → names_column c create_field ≡ false
    → names_column c delete_field ≡ false
    → alters_column c alterations ≡ false
    → Copies c
        (some (quote_name c))
        (plan_copying defaults model create_field delete_field alterations)
unfolding plan_copying
plan_copying-Copies defaults model create_field delete_field alterations c key has nc nd na =
    simp key (
      bind-Copies c own _ _
        (bind-Copies c own _ _
          (bind-Copies c own _ _
            (bind-Copies c own _ _ (start_copying-Copies c model has) (λ s h. h))
            (λ s h. create-Copies defaults c own create_field s nc h))
          (λ s h. alter_all-Copies defaults c own alterations s na h))
        (λ s h. delete-Copies defaults c own delete_field s nd h))
  where
    own : Option Text
    own = some (quote_name c)
