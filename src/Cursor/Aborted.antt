-- ===== src/Cursor/Aborted.antt =====
-- What a cursor does once the engine has aborted the transaction of an `atomic()` block.
use django_pyturso.Connection.{Wrapper, ensure_transaction}
use django_pyturso.Cursor.Buffer.{Fetch, one, many, all, fetch, listed}
use django_pyturso.Cursor.Guard.{
  IsMarked, django_transaction-MarksAborted, django_transaction_broken, MarksAborted,
}
use django_pyturso.Cursor.{
  CursorCalls, Session, Call, Params, execute, executemany, fetchone, fetchmany, fetchall,
  django_transaction, modify, send, complete, execute_rows, take_one, take_many, take_all,
}
use django_pyturso.Exec.{◌>>◌, Exc, driver, Answer, ok, raised}
use mathlib.Core.Path.{subst}
use django_pyturso.Prelude.{
  ℕ, ◌≡◌, refl, true, false, Option, none, some, List, [], ◌∷◌, Text, ap, sym, ◌∙◌, arith,
}

-- A call of a method of the cursor.
pub data Use (V : Type 0) : Type 0 where
  executing : Text → Option (Params V) → Use V
  executing_many : Text → List (Params V) → Use V
  fetching : Fetch → Use V

module _ (driver_calls : CursorCalls) where
  open driver_calls use {calls, R, V}
  open calls use {E, in_transaction, validate_no_broken_transaction}

  abbrev ended : {A : Type 0} → Answer A → Answer (Unit {0})
  ended (ok _) = ok tt
  ended (raised x) = raised x

  abbrev outcome : {A : Type 0} → Answer A × Session E R → Answer (Unit {0}) × Session E R
  outcome p = (ended p.0, p.1)

  abbrev pub perform : Use V → Session E R → Answer (Unit {0}) × Session E R
  perform (executing query params) s = execute driver_calls query params s
  perform (executing_many query rows) s = executemany driver_calls query rows s
  perform (fetching f) s = outcome (fetch driver_calls f s)

  -- Django's documented behaviour: the validation raises while the block is marked for rollback.
  abbrev pub Validates : Type 0
  Validates =
      (w : Wrapper E)
      → w.needs_rollback ≡ true
      → (x : Exc) × (validate_no_broken_transaction w ≡ raised x)

  -- Each call of the list raises, and leaves the cursor, the wrapper and the driver as they are.
  abbrev pub AreRefused : List (Use V) → Session E R → Type 0
  AreRefused [] s = Unit
  AreRefused (u ∷ later) s =
      let (r, s') = perform u s in ((x : Exc) × (r ≡ raised x)) × (s' ≡ s) × AreRefused later s'

  outcome-answer : (p : Answer (Unit {0}) × Session E R) → outcome p ≡ p
  outcome-answer (ok _, s) = refl
  outcome-answer (raised x, s) = refl

  outcome-listed :
      (p : Answer (Option R) × Session E R) → outcome p ≡ outcome (listed driver_calls p)
  outcome-listed (ok none, s) = refl
  outcome-listed (ok (some row), s) = refl
  outcome-listed (raised x, s) = refl

  -- Every method runs its body within the guard.
  perform-guarded :
      (u : Use V) (s : Session E R)
      → (A : Type 0) × (body : Call driver_calls A) × (outcome
            (django_transaction driver_calls body s)
          ≡ perform u s)
  unfolding execute executemany fetch fetchone fetchmany fetchall
  perform-guarded (executing query params) s = (
    Unit {0},
    (do
      modify (λ s. record s { returning_rows = none })
      send driver_calls query params
      complete driver_calls query),
    outcome-answer (execute driver_calls query params s),
  )
  perform-guarded (executing_many query rows) s = (
    Unit {0},
    execute_rows driver_calls query rows,
    outcome-answer (executemany driver_calls query rows s),
  )
  perform-guarded (fetching one) s = (
    Option R,
    λ s. take_one driver_calls s.returning_rows s,
    outcome-listed (fetchone driver_calls s),
  )
  perform-guarded (fetching (many size)) s =
      (List R, λ s. take_many driver_calls size s.returning_rows s, refl)
  perform-guarded (fetching all) s = (List R, λ s. take_all driver_calls s.returning_rows s, refl)

  perform-refused :
      (u : Use V) (s : Session E R) (x : Exc)
      → validate_no_broken_transaction s.wrapper ≡ raised x
      → perform u s ≡ (raised x, s)
  perform-refused u s x h =
      let (A, body, e) = perform-guarded u s in
      sym e ∙ ap outcome (django_transaction_broken driver_calls body s x h)

  marked-AreRefused :
      Validates
      → (later : List (Use V)) (s : Session E R) → s.wrapper.needs_rollback ≡ true
      → AreRefused later s
  marked-AreRefused v [] s h = tt
  marked-AreRefused v (u ∷ later) s h =
      let (x, k) = v s.wrapper h in
      let e = perform-refused u s x k in
      (
        (x, ap (λ p. p.0) e),
        ap (λ p. p.1) e,
        subst (AreRefused later) (sym (ap (λ p. p.1) e)) (marked-AreRefused v later s h),
      )

  -- The block is marked and later calls are refused, if the engine has aborted the transaction.
  abbrev Aborts : Answer (Unit {0}) × Session E R → Type 0
  Aborts (r, s) =
      (n : ℕ) (e : E)
      → r ≡ raised (driver n)
      → s.wrapper.connection ≡ some e
      → s.wrapper.in_atomic_block ≡ true
      → in_transaction e ≡ ok false
      → IsMarked driver_calls (driver n) s × ((later : List (Use V)) → AreRefused later s)

  ended-raised : {A : Type 0} (r : Answer A) (x : Exc) → ended r ≡ raised x → r ≡ raised x
  ended-raised (ok a) x h = cc
  ended-raised (raised y) x h = ground (arith, h)

  outcome-Aborts :
      Validates
      → {A : Type 0} (p : Answer A × Session E R) → MarksAborted driver_calls p
      → Aborts (outcome p)
  outcome-Aborts v p h n e r c a t =
      let m = h n e (ended-raised p.0 (driver n) r) c a t in
      (m, λ later. marked-AreRefused v later p.1 m.0)

  -- No statement of an aborted transaction runs on without it. If the guard lets a call of the cursor
  -- through (an `execute`, an `executemany` or a fetch), the call raises an error of the driver
  -- inside `atomic()` and the connection is then in no transaction, the block is marked for rollback
  -- with that error and without commit callbacks. From then on each of any sequence of
  -- executes, executemanys and fetches raises, and leaves the cursor, the wrapper and the
  -- connection as they are.
  pub perform-Aborts :
      Validates
      → (u : Use V) (s : Session E R) (n : ℕ) (e : E)
      → validate_no_broken_transaction s.wrapper ≡ ok tt
      → (ensure_transaction calls s.wrapper).0 ≡ ok tt
      → (perform u s).0 ≡ raised (driver n)
      → (perform u s).1.wrapper.connection ≡ some e
      → (perform u s).1.wrapper.in_atomic_block ≡ true
      → in_transaction e ≡ ok false
      → IsMarked driver_calls (driver n) (perform u s).1
        × ((later : List (Use V)) → AreRefused later (perform u s).1)
  perform-Aborts v u s n e valid ready =
      let (A, body, same) = perform-guarded u s in
      subst Aborts same
        (outcome-Aborts v (django_transaction driver_calls body s)
          (django_transaction-MarksAborted driver_calls body s valid ready))
        n e
