-- ===== src/Schema.antt =====
-- The context manager of `DatabaseSchemaEditor` in src/django_pyturso/schema.py: it switches
-- foreign-key enforcement off, lets Django run the schema changes in a transaction, and restores
-- enforcement and the transaction mode. `disable_constraint_checking` and
-- `enable_constraint_checking` of src/django_pyturso/base.py read and write the same state.
pub mod Restore
use django_pyturso.Exec.{
  Exc, not_supported, database_error, Answer, ok, raised, Exec, pure, raise, lift, ◌>>=◌, ◌>>◌,
  continue, handle, catch, modify,
}
use django_pyturso.Prelude.{
  ℕ, Bool, true, false, not, ◌&&◌, ◌||◌, Option, none, some, List, [], ◌∷◌, Text, codes, text_eq,
  ◌==◌, if◌then◌else◌,
}

-- The editor's attributes and those of its connection. `D` is the state of the database connection
-- behind the driver.
pub record Editor (D : Type 0) : Type 0 where
  pub database : D
  pub transaction_mode : Text
  pub deferred_sql : List Text
  pub original_foreign_keys : Option ℕ
  pub original_transaction_mode : Option Text

-- What the editor calls. `read_foreign_keys` is `PRAGMA foreign_keys` with `fetchone`: no row, or
-- its first value as a number, if it is one. `base_enter` and `base_exit` are Django's
-- methods, which open and close its atomic block in the transaction mode that they are given. The
-- state of `D` includes Django's own, such as `in_atomic_block`.
pub record SchemaCalls : Type 1 where
  pub D : Type 0
  pub read_foreign_keys : D → Answer (Option ℕ) × D
  pub write_foreign_keys : Bool → D → Answer (Unit {0}) × D
  pub force_close : D → Answer (Unit {0}) × D
  pub ensure_connection : D → Answer (Unit {0}) × D
  pub get_autocommit : D → Answer Bool × D
  pub in_atomic_block : D → Bool
  pub base_enter : Text → D → Answer (Unit {0}) × D
  pub execute : Text → D → Answer (Unit {0}) × D
  pub check_constraints : D → Answer (Unit {0}) × D
  pub base_exit : Option Exc → Text → D → Answer (Unit {0}) × D

abbrev pub failure {ℓ} : {A : Type ℓ} → Answer A → Option Exc
failure (ok _) = none
failure (raised x) = some x

module _ (calls : SchemaCalls) where
  open calls use {
    D, read_foreign_keys, write_foreign_keys, force_close, ensure_connection, get_autocommit,
    in_atomic_block, base_enter, execute, check_constraints, base_exit,
  }

  abbrev pub Edit : Type 0 → Type 0
  Edit A = Exec (Editor D) A

  -- A call on the connection.
  abbrev pub on_database : {A : Type 0} → (D → Answer A × D) → Edit A
  on_database f s = let (r, d) = f s.database in (r, record s { database = d })

  -- `row is None or row[0] not in (0, 1)`
  abbrev pub valid_state : Exc → Option ℕ → Answer ℕ
  valid_state error none = raised error
  valid_state error (some n) = if (n == 0) || (n == 1) then ok n else raised error

  -- `_foreign_key_state`
  unfoldable pub foreign_key_state : Edit ℕ
  foreign_key_state = do row ← on_database read_foreign_keys; lift (valid_state not_supported row)

  abbrev pub as_state : Bool → ℕ
  as_state true = 1
  as_state false = 0

  -- `_set_foreign_key_state`
  unfoldable pub set_foreign_key_state : Bool → Edit (Unit {0})
  unfolding foreign_key_state
  set_foreign_key_state enabled = do
    on_database (write_foreign_keys enabled)
    state ← foreign_key_state
    if state == as_state enabled then pure tt else raise not_supported

  abbrev pub forget_foreign_keys : Editor D → Editor D
  forget_foreign_keys s = record s { original_foreign_keys = none }

  abbrev pub as_bool : ℕ → Bool
  as_bool n = not (n == 0)

  restore_if_read : Option ℕ → Edit (Unit {0})
  restore_if_read none s = (ok tt, s)
  restore_if_read (some original) s =
      let (r, s') =
        catch (set_foreign_key_state (as_bool original))
          (λ error. on_database force_close >> raise error) s in
      (r, forget_foreign_keys s')

  -- `_restore_foreign_key_state`
  unfoldable pub restore_foreign_key_state : Edit (Unit {0})
  unfolding restore_if_read set_foreign_key_state
  restore_foreign_key_state s = restore_if_read s.original_foreign_keys s

  -- `_restore_transaction_mode`
  unfoldable pub restore_transaction_mode : Editor D → Editor D
  restore_transaction_mode s = elim s.original_transaction_mode [
    | none ↦ s
    | some mode ↦ record s { transaction_mode = mode; original_transaction_mode = none }
  ]

  is_concurrent : Text → Bool
  unfolding text_eq
  is_concurrent mode = text_eq mode (codes "CONCURRENT")

  -- The first test of `__enter__`.
  unfoldable pub check_outside : Edit (Unit {0})
  unfolding is_concurrent
  check_outside s =
      if is_concurrent s.transaction_mode
      then (do
        autocommit ← on_database get_autocommit
        λ v.
            if not autocommit || in_atomic_block v.database
            then (raised not_supported, v)
            else (ok tt, v))
          s
      else (ok tt, s)

  -- `self._original_foreign_keys = self._foreign_key_state()`
  unfoldable pub read_original : Edit (Unit {0})
  unfolding foreign_key_state
  read_original =
      catch foreign_key_state (λ error. on_database force_close >> raise error) >>= λ state s.
      (ok tt, record s { original_foreign_keys = some state })

  abbrev pub is_enforced : Option ℕ → Bool
  is_enforced none = false
  is_enforced (some n) = as_bool n

  -- `if self._original_foreign_keys and self.connection.in_atomic_block`, and the change.
  unfoldable pub disable_if_enforced : Edit (Unit {0})
  unfolding set_foreign_key_state
  disable_if_enforced s =
      if is_enforced s.original_foreign_keys
      then (if in_atomic_block s.database
          then (raised not_supported, s)
          else set_foreign_key_state false s)
      else (ok tt, s)

  unfoldable pub use_immediate : Editor D → Editor D
  unfolding is_concurrent
  use_immediate s =
      if is_concurrent s.transaction_mode
      then record s {
        transaction_mode = codes "IMMEDIATE";
        original_transaction_mode = some (codes "CONCURRENT");
      }
      else s

  -- The second `try` block of `__enter__`.
  unfoldable pub begin_editing : Edit (Unit {0})
  unfolding disable_if_enforced use_immediate
  begin_editing = do
    disable_if_enforced
    modify use_immediate
    λ s. on_database (base_enter s.transaction_mode) s

  -- Its handler: whatever the restoration does, the first exception is raised.
  unfoldable pub undo_enter : Exc → Edit (Unit {0})
  unfolding restore_foreign_key_state restore_transaction_mode
  undo_enter primary s =
      let (_, s') = restore_foreign_key_state s in (raised primary, restore_transaction_mode s')

  -- `__enter__`
  unfoldable pub enter : Edit (Unit {0})
  unfolding check_outside read_original begin_editing undo_enter
  enter = do
    on_database ensure_connection
    check_outside
    read_original
    catch begin_editing undo_enter

  unfoldable pub run_deferred : List Text → D → Answer (Unit {0}) × D
  run_deferred [] d = (ok tt, d)
  run_deferred (sql ∷ rest) d = continue (execute sql d) (λ _. run_deferred rest)

  -- The work of `_exit_schema` before Django's exit, with its exception as a value.
  unfoldable pub finish_editing : Option Exc → Editor D → Option Exc × Editor D
  unfolding run_deferred
  finish_editing (some exc) s = (none, s)
  finish_editing none s =
      let (r, d) = continue (run_deferred s.deferred_sql s.database) (λ _. check_constraints) in
      (failure r, record s { database = d; deferred_sql = [] })

  abbrev pub first_of : Option Exc → Option Exc → Option Exc
  first_of none y = y
  first_of (some x) y = some x

  -- The end of `_exit_schema`: the exception that it raises, if any.
  unfoldable pub conclude : Option Exc → Option Exc → Option Exc → Option Exc → Option Exc
  conclude exit_error schema_error exc none = first_of exit_error schema_error
  conclude exit_error schema_error exc (some restoration) =
      first_of (first_of exit_error (first_of schema_error exc)) (some restoration)

  -- `_exit_schema`, which returns the exception that it raises.
  unfoldable pub exit_schema : Option Exc → Editor D → Option Exc × Editor D
  exit_schema exc s =
      let (schema_error, s1) = finish_editing exc s in
      let (exit_result, d) =
        base_exit (first_of exc schema_error) s1.transaction_mode s1.database in
      let (restored, s2) = restore_foreign_key_state (record s1 { database = d }) in
      (conclude (failure exit_result) schema_error exc (failure restored), s2)

  -- `__exit__`
  unfoldable pub exit : Option Exc → Editor D → Option Exc × Editor D
  exit exc s = let (error, s') = exit_schema exc s in (error, restore_transaction_mode s')
