-- ===== src/Connection.antt =====
-- The transaction methods of `DatabaseWrapper` in src/django_pyturso/base.py.
pub mod Manual
pub mod Close
use django_pyturso.Exec.{
  Exc, transaction_management, database_error, assertion, Answer, ok, raised, Exec, pure, raise,
  lift, ◌>>=◌, ◌>>◌, catch, modify,
}
use django_pyturso.Prelude.{
  ℕ, Bool, true, false, not, ◌&&◌, ◌||◌, Option, none, some, List, [], ◌∷◌, ◌++◌, Text, codes,
  if◌then◌else◌,
}

-- The attributes of a wrapper that these methods read or write. `E` is the state of the driver's
-- connection; a callback of `run_on_commit` is known by a number. `is_in_memory_db` and `settings_autocommit` are
-- the answers that the settings give.
pub record Wrapper (E : Type 0) : Type 0 where
  pub connection : Option E
  pub autocommit : Bool
  pub in_atomic_block : Bool
  pub commit_on_exit : Bool
  pub needs_rollback : Bool
  pub rollback_exc : Option Exc
  pub run_on_commit : List ℕ
  pub transaction_mode : Text
  pub closed_in_transaction : Bool
  pub is_in_memory_db : Bool
  pub settings_autocommit : Bool
  pub health_check_enabled : Bool
  pub health_check_done : Bool
  pub errors_occurred : Bool
  pub close_at : Option ℕ

-- What the methods call of the driver (`turso.Connection`) and of Django: `base_close` is
-- `BaseDatabaseWrapper.close`, and `cursor_execute` runs a statement on a new cursor. No
-- method here changes what `validate_thread_sharing` reads.
pub record Calls : Type 1 where
  pub E : Type 0
  pub in_transaction : E → Answer Bool
  pub execute : Text → E → Answer (Unit {0}) × E
  pub rollback : E → Answer (Unit {0}) × E
  pub wrap_database_errors : Exc → Exc
  pub validate_no_broken_transaction : Wrapper E → Answer (Unit {0})
  pub validate_thread_sharing : Answer (Unit {0})
  pub base_close : Wrapper E → Answer (Unit {0}) × Wrapper E
  pub get_autocommit : Wrapper E → Answer Bool × Wrapper E
  pub base_close_if_unusable_or_obsolete : Wrapper E → Answer (Unit {0}) × Wrapper E
  pub savepoint_rollback_sql : Text → Text
  pub cursor_execute : Text → Wrapper E → Answer (Unit {0}) × Wrapper E

module _ (calls : Calls) where
  open calls use {
    E, in_transaction, execute, wrap_database_errors, cursor_execute, savepoint_rollback_sql,
  }

  abbrev pub Method : Type 0 → Type 0
  Method A = Exec (Wrapper E) A

  -- A call on `self.connection` that may change the connection's state.
  unfoldable pub on_connection : (E → Answer (Unit {0}) × E) → Option E → Method (Unit {0})
  on_connection f none w = (raised assertion, w)
  on_connection f (some e) w = let (r, e') = f e in (r, record w { connection = some e' })

  -- `_begin`
  unfoldable pub begin : Method (Unit {0})
  unfolding on_connection
  begin w = on_connection (execute (codes "BEGIN " ++ w.transaction_mode)) w.connection w

  -- `self.connection.in_transaction`, for a connection that is not `None`.
  unfoldable pub active : Option E → Answer Bool
  active none = raised assertion
  active (some e) = in_transaction e

  -- The part of `_ensure_transaction` behind the first test.
  unfoldable pub start_or_fail : Method (Unit {0})
  unfolding begin
  start_or_fail w =
      if w.in_atomic_block && w.commit_on_exit
      then (raised transaction_management, record w { needs_rollback = true; run_on_commit = [] })
      else begin w

  -- `_ensure_transaction`
  unfoldable pub ensure_transaction : Method (Unit {0})
  unfolding start_or_fail active
  ensure_transaction w = elim w.connection [
    | none ↦ (ok tt, w)
    | some e ↦
        if w.autocommit
        then (ok tt, w)
        else (do busy ← lift (in_transaction e); if busy then pure tt else start_or_fail) w
  ]

  -- `with self.wrap_database_errors: m`
  abbrev pub wrapping : {A : Type 0} → Method A → Method A
  wrapping m = catch m (λ e. raise (wrap_database_errors e))

  -- `_set_autocommit`, behind its assertion.
  unfoldable pub switch_autocommit : Bool → E → Method (Unit {0})
  unfolding begin
  switch_autocommit true e =
      wrapping
        (do busy ← lift (in_transaction e); if busy then raise transaction_management else pure tt)
  switch_autocommit false e =
      wrapping (do busy ← lift (in_transaction e); if busy then pure tt else begin)

  -- `_set_autocommit`
  unfoldable pub set_autocommit : Bool → Method (Unit {0})
  unfolding switch_autocommit
  set_autocommit autocommit w = elim w.connection [
    | none ↦ (raised assertion, w)
    | some e ↦ switch_autocommit autocommit e w
  ]

  -- `_start_transaction_under_autocommit`
  unfoldable pub start_transaction_under_autocommit : Method (Unit {0})
  unfolding begin
  start_transaction_under_autocommit = wrapping begin

  -- `_savepoint_rollback`
  unfoldable pub savepoint_rollback : Text → Method (Unit {0})
  unfolding active
  savepoint_rollback sid w =
      (do
        busy ← lift (active w.connection)
        if busy then cursor_execute (savepoint_rollback_sql sid) else raise transaction_management)
        w
