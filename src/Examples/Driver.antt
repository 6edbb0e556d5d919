-- ===== src/Examples/Driver.antt =====
-- A small driver: the connection's state says whether it is in a transaction. `BEGIN` starts one
-- and `rollback` ends one. Django's `close` follows its documented behaviour.
use django_pyturso.Connection.Close.Safety.{
  Closes, EndsSafely, IsClosed, rollback_active_transaction_for_close-EndsSafely, close-IsClosed,
}
use django_pyturso.Connection.Close.{rollback_active_transaction_for_close, close}
use django_pyturso.Connection.Manual.{
  Begins, IsReady, ensure_transaction-IsReady, ensure_transaction_atomic, set_autocommit_lem,
}
use django_pyturso.Connection.{Wrapper, Calls, ensure_transaction, set_autocommit}
use django_pyturso.Exec.{Exc, transaction_management, Answer, ok, raised}
use django_pyturso.Prelude.{
  ◌≡◌, refl, ◌⊎◌, inl, inr, Bool, true, false, none, some, [], ◌∷◌, ◌++◌, codes, if◌then◌else◌,
  arith, Bool-cases,
}

abbrev drop_connection : Wrapper Bool → Wrapper Bool
drop_connection w =
    if w.in_atomic_block
    then record w { closed_in_transaction = true; needs_rollback = true }
    else record w { connection = none }

abbrev pub toy : Calls
toy = record {
  E = Bool;
  in_transaction = λ e. ok e;
  execute = λ sql e. (ok tt, true);
  rollback = λ e. (ok tt, false);
  wrap_database_errors = λ x. x;
  validate_no_broken_transaction =
      λ w. if w.needs_rollback then raised transaction_management else ok tt;
  validate_thread_sharing = ok tt;
  base_close = λ w. (ok tt, drop_connection w);
  get_autocommit = λ w. (ok w.autocommit, w);
  base_close_if_unusable_or_obsolete = λ w. (ok tt, w);
  savepoint_rollback_sql = λ sid. codes "ROLLBACK TO " ++ sid;
  cursor_execute = λ sql w. (ok tt, w);
}

abbrev pub manual : Wrapper Bool
manual = record {
  connection = some false;
  autocommit = false;
  in_atomic_block = false;
  commit_on_exit = true;
  needs_rollback = false;
  rollback_exc = none;
  run_on_commit = 1 ∷ [];
  transaction_mode = codes "DEFERRED";
  closed_in_transaction = false;
  is_in_memory_db = true;
  settings_autocommit = true;
  health_check_enabled = true;
  health_check_done = false;
  errors_occurred = false;
  close_at = none;
}

-- An `atomic()` block whose transaction the engine has aborted.
abbrev pub aborted : Wrapper Bool
aborted = record manual { in_atomic_block = true }

toy-Begins : Begins toy
toy-Begins mode e h = refl

toy-Closes : Closes toy
toy-Closes w = elim (Bool-cases w.in_atomic_block) [
  | inl atomic ↦ inr (ground arith)
  | inr outside ↦ inl (ground arith)
]

ensure_transaction-IsReady_example : IsReady toy (ensure_transaction toy manual).1
unfolding ensure_transaction
ensure_transaction-IsReady_example = ensure_transaction-IsReady toy toy-Begins manual refl

ensure_transaction_atomic_example :
    let (r, w') = ensure_transaction toy aborted in
    (w'.connection ≡ aborted.connection)
    × ((r ≡ ok tt)
        ⊎ ((r ≡ raised transaction_management)
            × (w'.needs_rollback ≡ true)
            × (w'.run_on_commit ≡ []))
        ⊎ ((e : Bool) × (x : Exc) × (aborted.connection ≡ some e)
            × (◌≡◌ {A = Answer Bool} (ok e) (raised x))))
ensure_transaction_atomic_example = ensure_transaction_atomic toy aborted refl refl

set_autocommit_lem_example :
    (e : Bool) × ((set_autocommit toy false manual).1.connection ≡ some e)
    × (◌≡◌ {A = Answer Bool} (ok e) (ok true))
unfolding set_autocommit
set_autocommit_lem_example = set_autocommit_lem toy toy-Begins manual false refl

rollback_active_transaction_for_close-EndsSafely_example :
    EndsSafely toy
      (record manual { connection = some true })
      (rollback_active_transaction_for_close toy (record manual { connection = some true }))
rollback_active_transaction_for_close-EndsSafely_example =
    rollback_active_transaction_for_close-EndsSafely toy toy-Closes
      (record manual { connection = some true })

close-IsClosed_example :
    IsClosed toy
      (record aborted { connection = some true })
      (close toy (record aborted { connection = some true })).1
close-IsClosed_example =
    close-IsClosed toy toy-Closes refl (record aborted { connection = some true }) refl
