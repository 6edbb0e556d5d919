-- ===== src/Remake/Alterations.antt =====
-- The statements of `_alter_field` and `_alter_many_to_many` in src/django_pyturso/schema.py.
use django_pyturso.Exec.{pure, ◌>>=◌, ◌>>◌, modify, lift}
use django_pyturso.ForeignKeys.{join}
use django_pyturso.Identifiers.{quote_name}
use django_pyturso.Prelude.{none, List, [], ◌∷◌, ◌++◌, Text, codes, text_eq, if◌then◌else◌}
use django_pyturso.Remake.Decisions.{Comparison, rename, alter_field, remakes_related}
use django_pyturso.Remake.Steps.{TableCalls, Edit, on_database, remake_table}
use django_pyturso.Remake.{Field, Model, Defaults, column_of}

-- A many-to-many field: its table with the two fields, and the names of their columns.
pub record ManyToMany : Type 0 where
  pub through : Model
  pub field : Field
  pub reverse_field : Field
  pub column_name : Text
  pub reverse_name : Text

-- The copying of a many-to-many table. The names of columns are not quoted.
unfoldable pub copy_through_sql : ManyToMany → ManyToMany → Text
unfolding quote_name join
copy_through_sql old new =
    codes "INSERT INTO "
    ++ (quote_name new.through.db_table
        ++ (codes " ("
            ++ (join (codes ", ") (codes "id" ∷ new.column_name ∷ new.reverse_name ∷ [])
                ++ (codes ") SELECT "
                    ++ (join (codes ", ") (codes "id" ∷ old.column_name ∷ old.reverse_name ∷ [])
                        ++ (codes " FROM " ++ quote_name old.through.db_table))))))

module _ (calls : TableCalls) (defaults : Defaults) where
  open calls use {D, Sql, is_statement, rename_references, execute}

  -- `sql.rename_column_references(…)` for each statement.
  unfoldable pub rename_columns : Text → Text → Text → List Sql → List Sql
  rename_columns table old new [] = []
  rename_columns table old new (sql ∷ deferred) =
      (if is_statement sql then rename_references table old new sql else sql)
      ∷ rename_columns table old new deferred

  -- A column that is renamed in place, with the SQL that Django gives for it.
  unfoldable pub rename_column : Text → Text → Model → Text → Edit calls
  unfolding rename_columns
  rename_column old_column new_column model sql = do
    on_database calls (execute sql)
    modify (λ s. (rename_columns model.db_table old_column new_column s.0, s.1))

  -- The models that refer to the field are remade as they are.
  unfoldable pub remake_all : List Model → Edit calls
  unfolding remake_table
  remake_all [] = pure tt
  remake_all (model ∷ models) = remake_table calls defaults model none none [] >> remake_all models

  -- `_alter_field`, with the SQL of a renaming and the related models.
  unfoldable pub alter_field_of :
      Comparison → Model → Field → Field → Text → List Model → Edit calls
  unfolding rename_column remake_all remake_table alter_field remakes_related column_of
  alter_field_of c model old new sql related = do
    old_column ← lift (column_of old)
    new_column ← lift (column_of new)
    elim (alter_field c old new) [
      | rename ↦ rename_column old_column new_column model sql
      | _ ↦
          remake_table calls defaults model none none ((old, new) ∷ [])
          >> (if remakes_related c new then remake_all related else pure tt)
    ]

  module _ (create_through delete_through_model : Model → Edit calls) where
    -- `_alter_many_to_many`, with Django's `create_model` and `delete_model`.
    unfoldable pub alter_many_to_many : ManyToMany → ManyToMany → Edit calls
    unfolding copy_through_sql remake_table text_eq
    alter_many_to_many old new =
        if text_eq old.through.db_table new.through.db_table
        then remake_table calls defaults old.through none none
            ((old.reverse_field, new.reverse_field) ∷ (old.field, new.field) ∷ [])
        else create_through new.through
          >> (on_database calls (execute (copy_through_sql old new))
              >> delete_through_model old.through)
