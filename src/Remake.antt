-- ===== src/Remake.antt =====
-- Changes of tables in src/django_pyturso/schema.py: `_remake_table`, and which change
-- `add_field`, `remove_field`, `_alter_field` and the constraint methods make.
pub mod Plan
pub mod Data
pub mod Steps
pub mod Safety
pub mod Decisions
pub mod Alterations
use django_pyturso.Exec.{Exc, value_error, key_error, Answer, ok, raised, ◌then_do◌}
use django_pyturso.Identifiers.{quote_name}
use django_pyturso.Prelude.{
  ℕ, Bool, true, false, not, ◌&&◌, ◌||◌, Option, none, some, List, [], ◌∷◌, ◌++◌, map, Text, codes,
  text_eq, contains, Dict, get_item, set_item, pop_item, if◌then◌else◌,
}

-- What the editor reads of a field. `is_composite` is an instance of `CompositePrimaryKey`.
-- `through_auto_created` is asked only of a field with `many_to_many`. A copy by `clone` is the same.
pub record Field : Type 0 where
  pub name : Text
  pub attname : Text
  pub column : Option Text
  pub primary_key : Bool
  pub auto_created : Bool
  pub generated : Bool
  pub has_db_default : Bool
  pub concrete : Bool
  pub null : Bool
  pub unique : Bool
  pub db_index : Bool
  pub has_db_constraint : Bool
  pub many_to_many : Bool
  pub through_auto_created : Bool
  pub is_composite : Bool
  pub has_type : Bool

pub record Index : Type 0 where
  pub name : Text
  pub fields : List Text

-- A model. A constraint is given by its name.
pub record Model : Type 0 where
  pub db_table : Text
  pub local_concrete_fields : List Field
  pub composite_key : Option Field
  pub unique_together : List (List Text)
  pub indexes : List Index
  pub constraints : List Text

abbrev pub column_or_raise : Option Text → Answer Text
column_or_raise none = raised value_error
column_or_raise (some column) = ok column

-- `_column`
unfoldable pub column_of : Field → Answer Text
column_of field = column_or_raise field.column

-- `body` and `mapping`, which gives the expression that each column is copied from.
pub record Copying : Type 0 where
  pub body : Dict Field
  pub mapping : Dict Text
  pub rename_mapping : Dict Text

-- The body of the new model before any change.
unfoldable pub add_fields : List Field → Dict Field → Dict Field
add_fields [] body = body
add_fields (field ∷ fields) body = add_fields fields (set_item field.name field body)

abbrev pub add_composite : Option Field → Dict Field → Dict Field
add_composite none body = body
add_composite (some field) body = set_item field.name field body

-- `{_column(field): self.quote_name(_column(field)) … if field.generated is False}`
unfoldable pub add_columns : List Field → Dict Text → Answer (Dict Text)
unfolding column_of quote_name
add_columns [] mapping = ok mapping
add_columns (field ∷ fields) mapping =
    if field.generated
    then add_columns fields mapping
    else (column_of field then_do λ c. add_columns fields (set_item c (quote_name c) mapping))

unfoldable pub start_copying : Model → Answer Copying
unfolding add_fields add_columns
start_copying model = add_columns model.local_concrete_fields [] then_do λ mapping. ok (record {
  body = add_composite model.composite_key (add_fields model.local_concrete_fields []);
  mapping = mapping;
  rename_mapping = [];
})

-- A changed field, before and after.
abbrev pub Alteration : Type 0
Alteration = Field × Field

abbrev pub is_new_name : Text → List Alteration → Bool
is_new_name name [] = false
is_new_name name ((_, new) ∷ rest) = text_eq name new.name || is_new_name name rest

abbrev pub alters_key : List Alteration → Bool
alters_key [] = false
alters_key ((_, new) ∷ rest) = new.primary_key || alters_key rest

abbrev pub adds_key : Option Field → List Alteration → Bool
adds_key (some create_field) alter_fields = create_field.primary_key || alters_key alter_fields
adds_key none alter_fields = alters_key alter_fields

-- `del mapping[column]`
abbrev pub delete_item : {A : Type 0} → Text → Dict A → Answer (Dict A)
delete_item key items = elim (get_item key items) [
  | none ↦ raised key_error
  | some _ ↦ ok (pop_item key items)
]

-- A key field that is no longer the primary key. An automatic one is removed.
unfoldable pub demote : Text → Field → Copying → Answer Copying
unfolding column_of
demote name field state = column_of field then_do λ column.
    if field.auto_created
    then (delete_item column state.mapping then_do λ mapping.
        ok (record state { body = pop_item name state.body; mapping = mapping }))
    else ok
        (record state { body = set_item name (record field { primary_key = false }) state.body })

-- The loop over `list(body.items())`.
unfoldable pub demote_keys : List Alteration → Dict Field → Copying → Answer Copying
unfolding demote text_eq
demote_keys alter_fields [] state = ok state
demote_keys alter_fields ((name, field) ∷ items) state =
    if field.primary_key && not (is_new_name name alter_fields)
    then (demote name field state then_do demote_keys alter_fields items)
    else demote_keys alter_fields items state

-- What the editor computes with Django: `prepare_default(effective_default(field))`, and the SQL of
-- a default in the database.
pub record Defaults : Type 0 where
  pub default_sql : Field → Answer Text
  pub db_default_sql : Field → Answer Text

module _ (defaults : Defaults) where
  open defaults use {default_sql, db_default_sql}

  -- `if create_field:`
  unfoldable pub create : Option Field → Copying → Answer Copying
  unfolding column_of
  create none state = ok state
  create (some field) state =
      let added = record state { body = set_item field.name field state.body } in
      if not field.has_db_default && not field.generated && field.concrete
      then (default_sql field then_do λ default. column_of field then_do λ column.
          ok (record added { mapping = set_item column default state.mapping }))
      else ok added

  -- `"coalesce(%(col)s, %(default)s)"`
  abbrev pub coalesce : Text → Text → Text
  coalesce column default =
      codes "coalesce(" ++ (quote_name column ++ (codes ", " ++ (default ++ codes ")")))

  abbrev pub new_default : Field → Answer Text
  new_default new = if new.has_db_default then db_default_sql new else default_sql new

  -- What a column that is changed is copied from.
  abbrev pub copied_from : Field → Field → Text → Answer Text
  copied_from old new column =
      if old.null && not new.null
      then (new_default new then_do λ default. ok (coalesce column default))
      else ok (quote_name column)

  -- One round of the loop over `alter_fields`.
  unfoldable pub alter : Field → Field → Copying → Answer Copying
  unfolding column_of quote_name
  alter old new state = column_of old then_do λ old_column.
      let changed = record state {
        body = set_item new.name new (pop_item old.name state.body);
        mapping = pop_item old_column state.mapping;
        rename_mapping = set_item old.name new.name state.rename_mapping;
      } in
      if new.generated
      then ok changed
      else (copied_from old new old_column then_do λ expression. column_of new then_do λ column.
          ok (record changed { mapping = set_item column expression changed.mapping }))

  unfoldable pub alter_all : List Alteration → Copying → Answer Copying
  unfolding alter
  alter_all [] state = ok state
  alter_all ((old, new) ∷ rest) state = alter old new state then_do alter_all rest

  abbrev pub pop_column : Option Text → Dict Text → Dict Text
  pop_column none mapping = mapping
  pop_column (some column) mapping = pop_item column mapping

  -- `if delete_field:`, up to the test of a many-to-many field.
  unfoldable pub delete : Option Field → Copying → Answer Copying
  delete none state = ok state
  delete (some field) state = delete_item field.name state.body then_do λ body.
      ok (record state { body = body; mapping = pop_column field.column state.mapping })

  abbrev pub demote_if : Bool → List Alteration → Copying → Answer Copying
  demote_if true alter_fields state = demote_keys alter_fields state.body state
  demote_if false alter_fields state = ok state

  -- The part of `_remake_table` that computes what the new table has and how its rows are copied.
  unfoldable pub plan_copying :
      Model → Option Field → Option Field → List Alteration → Answer Copying
  unfolding start_copying demote_keys create alter_all delete
  plan_copying model create_field delete_field alter_fields =
      start_copying model
      then_do demote_if (adds_key create_field alter_fields) alter_fields
      then_do create create_field
      then_do alter_all alter_fields
      then_do delete delete_field
