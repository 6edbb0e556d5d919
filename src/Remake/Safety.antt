-- ===== src/Remake/Safety.antt =====
-- The rows of a table while it is remade.
use django_pyturso.Exec.{Answer, ok, raised, Exc}
use django_pyturso.Prelude.{codes, ◌++◌, ◌≡◌, ◌⊎◌, List, Text, Option, some, false, text_eq}
use django_pyturso.Remake.Steps.{Replacement, TableCalls, insert_sql}
use django_pyturso.Remake.{Model, Copying, quote_name}

module _ (calls : TableCalls) (model : Model) (new : Replacement) (copying : Copying) where
  open calls use {D, Sql, create_model, alter_db_table, execute, execute_deferred}

  abbrev pub copy_sql : Text
  copy_sql = insert_sql new.db_table model.db_table copying.mapping

  abbrev pub drop_sql : Text
  drop_sql = codes "DROP TABLE " ++ quote_name model.db_table

  module _ {Rows : Type 0} (rows : Text → D → Option Rows) (copy : Rows → Rows) where
    -- What each statement does to the rows of the tables, by SQL and by Django's documentation:
    -- a table that is created leaves the others alone; an `INSERT … SELECT` that returns puts the rows
    -- that are selected from its source into its target, and one that raises is undone; dropping a
    -- table leaves the others alone; a renaming that returns moves the rows to the new name, and one
    -- that raises is undone; and the deferred statements, which make indexes and constraints, change
    -- no rows.
    pub record Database : Type 0 where
      pub creating :
          (t : Text) (s : List Sql × D)
          → text_eq new.db_table t ≡ false
          → rows t (create_model new s).1.1 ≡ rows t s.1
      pub inserting :
          (d : D) (r : Rows)
          → rows model.db_table d ≡ some r
          → (execute copy_sql d).0 ≡ ok tt
          → rows new.db_table (execute copy_sql d).1 ≡ some (copy r)
      pub refusing :
          (t : Text) (d : D) (x : Exc)
          → (execute copy_sql d).0 ≡ raised x
          → rows t (execute copy_sql d).1 ≡ rows t d
      pub dropping :
          (t : Text) (d : D)
          → text_eq model.db_table t ≡ false
          → rows t (execute drop_sql d).1 ≡ rows t d
      pub renaming :
          (s : List Sql × D)
          → (alter_db_table new.db_table model.db_table s).0 ≡ ok tt
          → rows model.db_table (alter_db_table new.db_table model.db_table s).1.1
            ≡ rows new.db_table s.1
      pub not_renaming :
          (t : Text) (s : List Sql × D) (x : Exc)
          → (alter_db_table new.db_table model.db_table s).0 ≡ raised x
          → rows t (alter_db_table new.db_table model.db_table s).1.1 ≡ rows t s.1
      pub deferring : (t : Text) (sql : Sql) (d : D) → rows t (execute_deferred sql d).1 ≡ rows t d

    module _ (database : Database) where
      -- The remaking returned, and the table has the copied rows; or it raised, and the table has its
      -- rows, or the copied ones, or the replacement has the copied ones.
      abbrev pub Keeps : Rows → Answer (Unit {0}) × (List Sql × D) → Type 0
      Keeps r (ok _, s) = rows model.db_table s.1 ≡ some (copy r)
      Keeps r (raised _, s) =
          (rows model.db_table s.1 ≡ some r)
          ⊎ (rows model.db_table s.1 ≡ some (copy r))
          ⊎ (rows new.db_table s.1 ≡ some (copy r))
