-- ===== src/Examples/Sessions.antt =====
-- A cursor on the small driver, whose statements all fail and abort the transaction.
use django_pyturso.Connection.{ensure_transaction}
use django_pyturso.Cursor.Buffer.{many, fetch}
use django_pyturso.Cursor.Aborted.{Use, Validates, AreRefused, perform, executing, perform-Aborts}
use django_pyturso.Cursor.Guard.{IsMarked}
use django_pyturso.Cursor.{CursorCalls, Session, natural, send, fetchmany, execute, on_driver}
use django_pyturso.Examples.Driver.{toy, aborted}
use django_pyturso.Exec.{driver, raised, ok, transaction_management}
use django_pyturso.Prelude.{
  List, ℕ, ◌≡◌, refl, Bool, true, false, none, some, [], ◌∷◌, codes, arith,
}

abbrev failing : CursorCalls
failing = record {
  calls = toy;
  R = ℕ;
  V = ℕ;
  run = λ query params e. (raised (driver 9), false);
  run_many = λ query rows failure e. (ok tt, e);
  has_description = λ e. false;
  driver_fetchone = λ e. (ok none, e);
  driver_fetchmany = λ size e. (ok [], e);
  driver_fetchall = λ e. (ok [], e);
  is_write_statement = λ query. true;
}

abbrev in_atomic : Session Bool ℕ
in_atomic = record {
  wrapper = record aborted { connection = some true };
  returning_rows = some (1 ∷ 2 ∷ 3 ∷ []);
  arraysize = natural 1;
}

abbrev broken : Session Bool ℕ
broken = record in_atomic { wrapper = record aborted { needs_rollback = true } }

failing-Validates : Validates failing
failing-Validates w h = (transaction_management, ground (arith, h))

perform-Aborts_example :
    IsMarked failing (driver 9) (perform failing (executing (codes "SELECT 1") none) in_atomic).1
    × ((later : List (Use ℕ))
        → AreRefused failing later
            (perform failing (executing (codes "SELECT 1") none) in_atomic).1)
unfolding ensure_transaction execute send on_driver
perform-Aborts_example =
    perform-Aborts failing failing-Validates (executing (codes "SELECT 1") none) in_atomic 9 false
      refl refl refl refl refl refl

fetch_two : (fetch failing (many (some (natural 2))) in_atomic).0 ≡ ok (1 ∷ 2 ∷ [])
unfolding fetch fetchmany
fetch_two = refl
