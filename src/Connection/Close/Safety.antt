-- ===== src/Connection/Close/Safety.antt =====
-- What closing guarantees, whatever the driver answers or raises.
use django_pyturso.Connection.Close.{
  end_transaction, rollback_active_transaction_for_close, close_connection, close_unless_none,
  close, rollback_if_open, finish_close,
}
use django_pyturso.Connection.{Wrapper, Calls}
use django_pyturso.Exec.{Exc, Answer, ok, raised, ◌>>◌, continue, handle, raise, Answer-cases}
use django_pyturso.Prelude.{
  ◌≡◌, refl, ◌⊎◌, inl, inr, ◌&&◌, Bool-cases, true, false, not, Option, none, some, [], arith,
}

module _ (calls : Calls) where
  open calls use {E, in_transaction, rollback, validate_thread_sharing, base_close}

  -- The connection is gone, or marked so that Django drops it at the end of the atomic block.
  abbrev pub IsDisposed : Wrapper E → Type 0
  IsDisposed w = (w.connection ≡ none) ⊎ (w.closed_in_transaction ≡ true)

  -- What Django documents of its `close`, which the backend's `_force_close` calls.
  abbrev pub Closes : Type 0
  Closes = (w : Wrapper E) → IsDisposed (base_close w).1

  -- Nothing is left to roll back.
  abbrev pub IsSafe : Wrapper E → Type 0
  IsSafe w = IsDisposed w ⊎ ((e : E) × (w.connection ≡ some e) × (in_transaction e ≡ ok false))

  -- How an attempt to end the transaction may leave the wrapper.
  abbrev Ended : Wrapper E → Answer (Unit {0}) × Wrapper E → Type 0
  Ended w (r, w') =
      (w'.is_in_memory_db ≡ w.is_in_memory_db)
      × (w'.in_atomic_block ≡ w.in_atomic_block)
      × (r ≡ ok tt → (e : E) × (w'.connection ≡ some e) × (in_transaction e ≡ ok false))

  end_transaction-Ended :
      (w : Wrapper E) (e : E) → w.connection ≡ some e → Ended w (end_transaction calls e w)
  unfolding end_transaction
  end_transaction-Ended w e h = elim (Answer-cases (in_transaction e)) [
    | inl (true, p) ↦
        (ground arith, ground arith, λ r. ((rollback e).1, ground arith, ground arith))
    | inl (false, p) ↦ (ground arith, ground arith, λ r. (e, ground arith, ground arith))
    | inr (x, p) ↦ (ground arith, ground arith, λ r. ground arith)
  ]

  -- How `_rollback_active_transaction_for_close` may leave the wrapper.
  abbrev pub EndsSafely : Wrapper E → Answer (Unit {0}) × Wrapper E → Type 0
  EndsSafely w (ok _, w') =
      IsSafe w'
      × (w'.is_in_memory_db ≡ w.is_in_memory_db)
      × (w'.in_atomic_block ≡ w.in_atomic_block)
  EndsSafely w (raised _, w') = IsDisposed w'

  dispose-EndsSafely :
      (w w' : Wrapper E) (x : Exc) → Closes → EndsSafely w (continue (base_close w') (λ _. raise x))
  dispose-EndsSafely w w' x closes = go (base_close w') (closes w')
    where
      go :
          (p : Answer (Unit {0}) × Wrapper E)
          → IsDisposed p.1
          → EndsSafely w (continue p (λ _. raise x))
      go (ok _, v) h = h
      go (raised _, v) h = h

  handle-EndsSafely :
      (w : Wrapper E) (p : Answer (Unit {0}) × Wrapper E)
      → Closes
      → Ended w p
      → EndsSafely w (handle p (λ x. base_close >> raise x))
  handle-EndsSafely w (ok _, w') closes h = (inr (h.2 refl), h.0, h.1)
  handle-EndsSafely w (raised x, w') closes h = dispose-EndsSafely w w' x closes

  rollback_from :
      (w : Wrapper E) (c : Option E)
      → w.connection ≡ c
      → Closes
      → EndsSafely w (rollback_if_open calls c w)
  unfolding rollback_if_open
  rollback_from w none h closes = (inl (inl h), refl, refl)
  rollback_from w (some e) h closes =
      handle-EndsSafely w (end_transaction calls e w) closes (end_transaction-Ended w e h)

  -- After `_rollback_active_transaction_for_close` no transaction is left: if it returns, the
  -- connection is disposed of or is in no transaction; if it raises, the connection is disposed of.
  -- This holds for every behaviour of the driver, its faults included. The hypothesis is that
  -- Django's `close` disposes of the connection.
  pub rollback_active_transaction_for_close-EndsSafely :
      Closes → (w : Wrapper E) → EndsSafely w (rollback_active_transaction_for_close calls w)
  unfolding rollback_active_transaction_for_close
  rollback_active_transaction_for_close-EndsSafely closes w =
      rollback_from w w.connection refl closes

  -- Nothing is left to roll back, and only an in-memory database outside `atomic()` stays open.
  abbrev pub IsClosed : Wrapper E → Wrapper E → Type 0
  IsClosed w v = IsSafe v × ((w.is_in_memory_db && not w.in_atomic_block) ≡ false → IsDisposed v)

  finish_close-IsClosed :
      (w u : Wrapper E) → Closes → EndsSafely w (ok tt, u) → IsClosed w (finish_close calls u).1
  unfolding finish_close
  finish_close-IsClosed w u closes h = elim (Bool-cases u.in_atomic_block) [
    | inl atomic ↦ simp atomic (inl (closes u), λ _. closes u)
    | inr outside ↦ elim (Bool-cases u.is_in_memory_db) [
      | inl memory ↦ simp (outside, memory) (h.0, λ z. ground (arith, h.1, h.2))
      | inr file ↦ simp (outside, file) (inl (closes u), λ _. closes u)
    ]
  ]

  close_connection-IsClosed :
      (w : Wrapper E)
      → Closes
      → w.closed_in_transaction ≡ false
      → IsClosed w (close_connection calls w).1
  unfolding close_connection
  close_connection-IsClosed w closes h = simp h (
      go (rollback_active_transaction_for_close calls w)
        (rollback_active_transaction_for_close-EndsSafely closes w))
    where
      go :
          (p : Answer (Unit {0}) × Wrapper E)
          → EndsSafely w p
          → IsClosed w (continue p (λ _. finish_close calls)).1
      go (ok _, u) k = finish_close-IsClosed w u closes k
      go (raised _, u) k = (inl k, λ _. k)

  close_unless_none-IsClosed :
      (w : Wrapper E) (c : Option E)
      → Closes
      → w.connection ≡ c
      → w.closed_in_transaction ≡ false
      → IsClosed w (close_unless_none calls c w).1
  unfolding close_unless_none
  close_unless_none-IsClosed w none closes h k = (inl (inl h), λ _. inl h)
  close_unless_none-IsClosed w (some e) closes h k = close_connection-IsClosed w closes k

  -- After `close` of a wrapper that this thread may close, nothing is left to roll back, whatever
  -- the driver does. The connection stays open only for an in-memory database outside `atomic()`.
  -- The hypotheses are that Django's `close` disposes of the connection, that thread sharing
  -- allows the call, and that the wrapper is not yet closed inside a transaction.
  pub close-IsClosed :
      Closes
      → validate_thread_sharing ≡ ok tt
      → (w : Wrapper E) → w.closed_in_transaction ≡ false
      → IsClosed w (close calls w).1
  unfolding close
  close-IsClosed closes allowed w h =
      rw allowed
        (close_unless_none-IsClosed (record w { run_on_commit = [] }) w.connection closes refl h)
