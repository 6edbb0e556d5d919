-- ===== src/Cursor/Guard.antt =====
-- The transaction guard round every statement and fetch.
use django_pyturso.Connection.{ensure_transaction}
use django_pyturso.Cursor.{CursorCalls, Session, Call, after_error, on_error, django_transaction}
use django_pyturso.Exec.{Exc, driver, Answer, ok, raised, handle, Answer-cases}
use django_pyturso.Prelude.{ℕ, ◌≡◌, refl, true, false, Option, none, some, [], arith, inl, inr}

module _ (driver_calls : CursorCalls) where
  open driver_calls use {calls, R}
  open calls use {E, in_transaction, validate_no_broken_transaction}

  -- A statement or fetch in a broken transaction block raises what Django's validation raises. It
  -- calls nothing of the driver and changes nothing, whatever its body is.
  pub django_transaction_broken :
      {A : Type 0} (body : Call driver_calls A) (s : Session E R) (x : Exc)
      → validate_no_broken_transaction s.wrapper ≡ raised x
      → django_transaction driver_calls body s ≡ (raised x, s)
  unfolding django_transaction
  django_transaction_broken body s x h = ground arith

  -- The block is marked for rollback: the error is kept and the commit callbacks are gone.
  abbrev pub IsMarked : Exc → Session E R → Type 0
  IsMarked x s =
      (s.wrapper.needs_rollback ≡ true)
      × (s.wrapper.rollback_exc ≡ some x)
      × (s.wrapper.run_on_commit ≡ [])

  -- If the call raises an error of the driver inside `atomic()`, and the connection is then in no
  -- transaction, the block is marked.
  abbrev pub MarksAborted : {A : Type 0} → Answer A × Session E R → Type 0
  MarksAborted (r, s) =
      (n : ℕ) (e : E)
      → r ≡ raised (driver n)
      → s.wrapper.connection ≡ some e
      → s.wrapper.in_atomic_block ≡ true
      → in_transaction e ≡ ok false
      → IsMarked (driver n) s

  after_error-MarksAborted :
      {A : Type 0} (m : ℕ) (c : Option E) (s : Session E R)
      → s.wrapper.connection ≡ c
      → MarksAborted {A = A} (after_error driver_calls (driver m) c s)
  unfolding after_error
  after_error-MarksAborted m none s h n e r p a t = ground arith
  after_error-MarksAborted m (some c) s h n e r p a t = elim (Answer-cases (in_transaction c)) [
    | inl (true, q) ↦ ground arith
    | inl (false, q) ↦ ground arith
    | inr (x, q) ↦ ground arith
  ]

  handle-MarksAborted :
      {A : Type 0} (p : Answer A × Session E R) → MarksAborted (handle p (on_error driver_calls))
  unfolding on_error
  handle-MarksAborted (ok a, s) n e r = cc
  handle-MarksAborted (raised (driver m), s) n e r =
      after_error-MarksAborted m s.wrapper.connection s refl n e r
  handle-MarksAborted (raised _, s) n e r = cc

  -- A statement or fetch that the guard lets through, and that raises an error of the driver inside
  -- `atomic()` after which the connection is in no transaction, leaves the block marked for
  -- rollback, with that error and without commit callbacks. Its body is arbitrary.
  pub django_transaction-MarksAborted :
      {A : Type 0} (body : Call driver_calls A) (s : Session E R)
      → validate_no_broken_transaction s.wrapper ≡ ok tt
      → (ensure_transaction calls s.wrapper).0 ≡ ok tt
      → MarksAborted (django_transaction driver_calls body s)
  unfolding django_transaction
  django_transaction-MarksAborted body s valid ready =
      rw (valid, ready)
        (handle-MarksAborted (body (record s { wrapper = (ensure_transaction calls s.wrapper).1 })))
