-- ===== src/Connection/Close.antt =====
-- Closing a wrapper: the lifecycle methods of `DatabaseWrapper` in src/django_pyturso/base.py.
pub mod Safety
use django_pyturso.Connection.{Wrapper, Calls, Method, active, on_connection}
use django_pyturso.Exec.{
  Exc, database_error, assertion, Answer, ok, raised, Exec, pure, raise, lift, ◌>>=◌, ◌>>◌, catch,
  handle, modify, is_driver,
}
use django_pyturso.Prelude.{
  ℕ, Bool, true, false, not, ◌&&◌, ◌||◌, Option, none, some, List, [], Text, codes, leb,
  if◌then◌else◌,
}

module _ (calls : Calls) where
  open calls use {
    E, in_transaction, execute, rollback, validate_thread_sharing, base_close, get_autocommit,
    base_close_if_unusable_or_obsolete,
  }

  -- `_force_close`
  abbrev pub force_close : Method calls (Unit {0})
  force_close = base_close

  -- The `try` block of `_rollback_active_transaction_for_close`.
  unfoldable pub end_transaction : E → Method calls (Unit {0})
  unfolding on_connection active
  end_transaction e = do
    busy ← lift (in_transaction e)
    if not busy then pure tt else do
      on_connection calls rollback (some e)
      still ← λ w. lift (active calls w.connection) w
      if still then raise database_error else pure tt

  unfoldable pub rollback_if_open : Option E → Method calls (Unit {0})
  unfolding end_transaction
  rollback_if_open none w = (ok tt, w)
  rollback_if_open (some e) w = catch (end_transaction e) (λ error. force_close >> raise error) w

  -- `_rollback_active_transaction_for_close`
  unfoldable pub rollback_active_transaction_for_close : Method calls (Unit {0})
  unfolding rollback_if_open
  rollback_active_transaction_for_close w = rollback_if_open w.connection w

  -- `_rollback_and_force_close`
  unfoldable pub rollback_and_force_close : Method calls (Unit {0})
  unfolding rollback_active_transaction_for_close
  rollback_and_force_close = rollback_active_transaction_for_close >> force_close

  -- `close` behind the rollback.
  unfoldable pub finish_close : Method calls (Unit {0})
  finish_close w =
      if w.in_atomic_block
      then force_close w
      else if not w.is_in_memory_db
      then force_close w
      else (ok tt, w)

  -- The end of `close`, on a connection that is there.
  unfoldable pub close_connection : Method calls (Unit {0})
  unfolding rollback_active_transaction_for_close finish_close
  close_connection w =
      if w.closed_in_transaction
      then (ok tt, w)
      else (rollback_active_transaction_for_close >> finish_close) w

  close_unless_none : Option E → Method calls (Unit {0})
  unfolding close_connection
  close_unless_none none w = (ok tt, w)
  close_unless_none (some e) w = close_connection w

  -- `close`
  unfoldable pub close : Method calls (Unit {0})
  unfolding close_unless_none
  close w =
      (do
        lift validate_thread_sharing
        modify (λ v. record v { run_on_commit = [] })
        close_unless_none w.connection)
        w

  usable_from : Answer (Unit {0}) × E → Wrapper E → Answer Bool × Wrapper E
  usable_from (ok _, e) w = (ok true, record w { connection = some e })
  usable_from (raised x, e) w =
      (if is_driver x then ok false else raised x, record w { connection = some e })

  -- `is_usable`
  unfoldable pub is_usable : Method calls Bool
  unfolding usable_from
  is_usable w = elim w.connection [
    | none ↦ (raised assertion, w)
    | some e ↦ usable_from (execute (codes "SELECT 1") e) w
  ]

  -- `close_if_health_check_failed`
  unfoldable pub close_if_health_check_failed : Method calls (Unit {0})
  unfolding is_usable
  close_if_health_check_failed w = elim w.connection [
    | none ↦ (ok tt, w)
    | some e ↦
        if not w.health_check_enabled || w.health_check_done
        then (ok tt, w)
        else (do
          usable ← is_usable
          if usable then pure tt else force_close
          modify (λ v. record v { health_check_done = true }))
            w
  ]

  -- The last test of `close_if_unusable_or_obsolete`, at the time `now`.
  abbrev expire : ℕ → Wrapper E → Wrapper E
  expire now v = elim v.close_at [
    | none ↦ v
    | some t ↦ if leb t now then record v { health_check_done = true } else v
  ]

  after_check : ℕ → Bool → Method calls (Unit {0})
  after_check now true u =
      (ok tt, expire now (record u { errors_occurred = false; health_check_done = true }))
  after_check now false u = force_close u

  -- From `if self.errors_occurred` on.
  unfoldable pub recover : ℕ → Method calls (Unit {0})
  unfolding is_usable after_check
  recover now v =
      if v.errors_occurred then (is_usable >>= after_check now) v else (ok tt, expire now v)

  -- `engine_state_drifted`, and what follows.
  unfoldable pub check_drift : ℕ → Method calls (Unit {0})
  unfolding recover rollback_and_force_close active
  check_drift now v = if not v.autocommit then recover now v else elim (active calls v.connection) [
    | raised x ↦ if is_driver x then force_close v else (raised x, v)
    | ok true ↦ rollback_and_force_close v
    | ok false ↦ recover now v
  ]

  abbrev differ : Bool → Bool → Bool
  differ true b = not b
  differ false b = b

  -- `close_if_unusable_or_obsolete`, at the time `now`.
  unfoldable pub close_if_unusable_or_obsolete : ℕ → Method calls (Unit {0})
  unfolding check_drift rollback_and_force_close
  close_if_unusable_or_obsolete now w =
      if not w.is_in_memory_db then base_close_if_unusable_or_obsolete w else elim w.connection [
        | none ↦ (ok tt, w)
        | some e ↦
            (do
              modify (λ v. record v { health_check_done = false })
              autocommit ← get_autocommit
              λ v.
                  if differ autocommit v.settings_autocommit
                  then rollback_and_force_close v
                  else check_drift now v)
              w
      ]
