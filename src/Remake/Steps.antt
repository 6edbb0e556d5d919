-- ===== src/Remake/Steps.antt =====
-- The statements of `_remake_table` and `delete_model` in src/django_pyturso/schema.py, in their order.
use django_pyturso.Exec.{Answer, ok, raised, Exec, ◌>>◌, continue, modify}
use django_pyturso.ForeignKeys.{join}
use django_pyturso.Identifiers.{quote_name}
use django_pyturso.Prelude.{
  Bool, true, false, not, ◌&&◌, Option, none, some, List, [], ◌∷◌, ◌++◌, map, Text, codes, text_eq,
  contains, Dict, get_item, if◌then◌else◌,
}
use django_pyturso.Remake.{Field, Index, Model, Copying, Defaults, Alteration, plan_copying}

-- The replacement of a model, as it is handed to Django, and whether the automatic key that Django
-- gives it is taken away again.
pub record Replacement : Type 0 where
  pub db_table : Text
  pub body : Dict Field
  pub unique_together : List (List Text)
  pub indexes : List Index
  pub constraints : List Text
  pub without_auto_key : Bool

-- What the methods call. `Sql` is a deferred statement, as text or as a `Statement` of Django, and
-- `D` is the state of the database. Django's own `create_model` and `alter_db_table` may change the
-- deferred statements.
pub record TableCalls : Type 1 where
  pub D : Type 0
  pub Sql : Type 0
  pub is_statement : Sql → Bool
  pub references_table : Sql → Text → Bool
  pub strip_quotes : Text → Text
  pub key_attname : Dict Field → Text
  pub create_model : Replacement → List Sql × D → Answer (Unit {0}) × (List Sql × D)
  pub alter_db_table : Text → Text → List Sql × D → Answer (Unit {0}) × (List Sql × D)
  pub delete_through : Field → List Sql × D → Answer (Unit {0}) × (List Sql × D)
  pub execute : Text → D → Answer (Unit {0}) × D
  pub execute_deferred : Sql → D → Answer (Unit {0}) × D
  pub rename_references : Text → Text → Text → Sql → Sql

abbrev pub value_or : Text → Option Text → Text
value_or default none = default
value_or default (some t) = t

-- `[rename_mapping.get(name, name) for name in unique]`
abbrev pub renamed : Dict Text → Text → Text
renamed rename_mapping name = value_or name (get_item name rename_mapping)

abbrev pub keeps_index : Option Field → Index → Bool
keeps_index none index = true
keeps_index (some field) index = not (contains field.name index.fields)

unfoldable pub kept_indexes : Option Field → List Index → List Index
unfolding contains
kept_indexes delete_field [] = []
kept_indexes delete_field (index ∷ indexes) =
    if keeps_index delete_field index
    then index ∷ kept_indexes delete_field indexes
    else kept_indexes delete_field indexes

unfoldable pub insert_sql : Text → Text → Dict Text → Text
unfolding join quote_name
insert_sql new_table table mapping =
    codes "INSERT INTO "
    ++ (quote_name new_table
        ++ (codes " ("
            ++ (join (codes ", ") (map (λ item. quote_name item.0) mapping)
                ++ (codes ") SELECT "
                    ++ (join (codes ", ") (map (λ item. item.1) mapping)
                        ++ (codes " FROM " ++ quote_name table))))))

module _ (calls : TableCalls) where
  open calls use {
    D, Sql, is_statement, references_table, strip_quotes, key_attname, create_model, alter_db_table,
    delete_through, execute, execute_deferred,
  }

  abbrev pub Edit : Type 0
  Edit = Exec (List Sql × D) (Unit {0})

  abbrev pub on_database : (D → Answer (Unit {0}) × D) → Edit
  on_database f (deferred, d) = let (r, d') = f d in (r, (deferred, d'))

  -- The deferred statements that do not reference the table.
  unfoldable pub without_references : Text → List Sql → List Sql
  without_references table [] = []
  without_references table (sql ∷ deferred) =
      if is_statement sql && references_table sql table
      then without_references table deferred
      else sql ∷ without_references table deferred

  -- `delete_model` with `handle_autom2m=False`
  unfoldable pub drop_model : Text → Edit
  unfolding without_references quote_name
  drop_model table = do
    on_database (execute (codes "DROP TABLE " ++ quote_name table))
    modify (λ s. (without_references table s.0, s.1))

  unfoldable pub execute_all : List Sql → D → Answer (Unit {0}) × D
  execute_all [] d = (ok tt, d)
  execute_all (sql ∷ rest) d = continue (execute_deferred sql d) (λ _. execute_all rest)

  unfoldable pub run_deferred_sql : Edit
  unfolding execute_all
  run_deferred_sql (deferred, d) =
      continue (on_database (execute_all deferred) (deferred, d)) (λ _ s. (ok tt, ([], s.1)))

  abbrev pub loses_key : Option Field → Dict Field → Bool
  loses_key none body = false
  loses_key (some field) body = text_eq field.attname (key_attname body)

  unfoldable pub replacement : Model → Option Field → Copying → Replacement
  unfolding kept_indexes get_item text_eq
  replacement model delete_field copying = record {
    db_table = codes "new__" ++ strip_quotes model.db_table;
    body = copying.body;
    unique_together = map (map (renamed copying.rename_mapping)) model.unique_together;
    indexes = kept_indexes delete_field model.indexes;
    constraints = model.constraints;
    without_auto_key = loses_key delete_field copying.body;
  }

  unfoldable pub remake_with : Model → Replacement → Copying → Edit
  unfolding insert_sql drop_model run_deferred_sql
  remake_with model new copying = do
    create_model new
    on_database (execute (insert_sql new.db_table model.db_table copying.mapping))
    drop_model model.db_table
    alter_db_table new.db_table model.db_table
    run_deferred_sql

  abbrev pub deletes_through : Option Field → Option Field
  deletes_through none = none
  deletes_through (some field) =
      if field.many_to_many && field.through_auto_created then some field else none

  abbrev pub remake_or_delete : Option Field → Edit → Edit
  remake_or_delete none remake = remake
  remake_or_delete (some field) remake = delete_through field

  abbrev pub remake_planned : Model → Option Field → Answer Copying → Edit
  remake_planned model delete_field (raised x) s = (raised x, s)
  remake_planned model delete_field (ok copying) s =
      remake_or_delete (deletes_through delete_field)
        (remake_with model (replacement model delete_field copying) copying) s

  -- `_remake_table`
  unfoldable pub remake_table :
      Defaults → Model → Option Field → Option Field → List Alteration → Edit
  unfolding plan_copying remake_with replacement
  remake_table defaults model create_field delete_field alter_fields =
      remake_planned model delete_field
        (plan_copying defaults model create_field delete_field alter_fields)
