-- ===== src/Connection/Manual.antt =====
-- Transactions that the backend starts itself.
use django_pyturso.Connection.{Wrapper, Calls, ensure_transaction, set_autocommit, not}
use django_pyturso.Exec.{Exc, transaction_management, ok, raised, Answer-cases}
use django_pyturso.Prelude.{
  ◌≡◌, refl, Bool, true, false, Option, none, some, [], Text, codes, ◌++◌, arith, ◌⊎◌, inl, inr,
}

module _ (calls : Calls) where
  open calls use {E, in_transaction, execute}

  -- What the driver documents of `BEGIN`: if it raises nothing, a transaction is active.
  abbrev pub Begins : Type 0
  Begins =
      (mode : Text) (e : E)
      → (execute (codes "BEGIN " ++ mode) e).0 ≡ ok tt
      → in_transaction (execute (codes "BEGIN " ++ mode) e).1 ≡ ok true

  -- A connection that is open and not in autocommit mode is in a transaction.
  abbrev pub IsReady : Wrapper E → Type 0
  IsReady w = (e : E) → w.connection ≡ some e → w.autocommit ≡ false → in_transaction e ≡ ok true

  ensure_from :
      (begins : Begins) (w : Wrapper E) (c : Option E)
      → w.connection ≡ c
      → (ensure_transaction calls w).0 ≡ ok tt
      → IsReady (ensure_transaction calls w).1
  unfolding ensure_transaction
  ensure_from begins w none h r e p a = ground arith
  ensure_from begins w (some c) h r e p a = ground (arith, begins w.transaction_mode c)

  -- If `_ensure_transaction` returns, a connection that is open and not in autocommit mode is in a
  -- transaction, whatever the state was before. The hypothesis is that `BEGIN` starts one.
  pub ensure_transaction-IsReady :
      Begins
      → (w : Wrapper E) → (ensure_transaction calls w).0 ≡ ok tt
      → IsReady (ensure_transaction calls w).1
  ensure_transaction-IsReady begins w = ensure_from begins w w.connection refl

  atomic_from :
      (w : Wrapper E) (c : Option E)
      → w.connection ≡ c
      → w.in_atomic_block ≡ true
      → w.commit_on_exit ≡ true
      → let (r, w') = ensure_transaction calls w in
        (w'.connection ≡ w.connection)
        × ((r ≡ ok tt)
            ⊎ ((r ≡ raised transaction_management)
                × (w'.needs_rollback ≡ true)
                × (w'.run_on_commit ≡ []))
            ⊎ ((e : E) × (x : Exc) × (w.connection ≡ some e) × (in_transaction e ≡ raised x)))
  unfolding ensure_transaction
  atomic_from w none h a k = ground arith
  atomic_from w (some e) h a k = elim (Answer-cases (in_transaction e)) [
    | inl (busy, p) ↦ ground arith
    | inr (x, p) ↦ (ground arith, inr (inr (e, x, h, p)))
  ]

  -- Inside a block of `atomic()` that commits on exit `_ensure_transaction` never starts a
  -- transaction: the connection is untouched. It returns, or it marks the block for rollback, drops
  -- the commit callbacks and raises `TransactionManagementError`, or the driver raised when it was
  -- asked for its state.
  pub ensure_transaction_atomic :
      (w : Wrapper E)
      → w.in_atomic_block ≡ true
      → w.commit_on_exit ≡ true
      → let (r, w') = ensure_transaction calls w in
        (w'.connection ≡ w.connection)
        × ((r ≡ ok tt)
            ⊎ ((r ≡ raised transaction_management)
                × (w'.needs_rollback ≡ true)
                × (w'.run_on_commit ≡ []))
            ⊎ ((e : E) × (x : Exc) × (w.connection ≡ some e) × (in_transaction e ≡ raised x)))
  ensure_transaction_atomic w = atomic_from w w.connection refl

  autocommit_from :
      (begins : Begins) (w : Wrapper E) (c : Option E)
      → w.connection ≡ c
      → (b : Bool) → (set_autocommit calls b w).0 ≡ ok tt
      → (e : E) × ((set_autocommit calls b w).1.connection ≡ some e)
        × (in_transaction e ≡ ok (not b))
  unfolding set_autocommit
  autocommit_from begins w none h b r = ground arith
  autocommit_from begins w (some e) h true r = (e, ground arith, ground arith)
  autocommit_from begins w (some e) h false r = elim (Answer-cases (in_transaction e)) [
    | inl (true, p) ↦ (e, ground arith, ground arith)
    | inl (false, p) ↦ (
      (execute (codes "BEGIN " ++ w.transaction_mode) e).1,
      ground arith,
      ground (arith, begins w.transaction_mode e),
    )
    | inr (x, p) ↦ ground arith
  ]

  -- If `_set_autocommit` returns, the connection is open, and it is in a transaction exactly if
  -- autocommit was switched off. The hypothesis is that `BEGIN` starts a transaction.
  pub set_autocommit_lem :
      Begins
      → (w : Wrapper E) (b : Bool) → (set_autocommit calls b w).0 ≡ ok tt
      → (e : E) × ((set_autocommit calls b w).1.connection ≡ some e)
        × (in_transaction e ≡ ok (not b))
  set_autocommit_lem begins w b = autocommit_from begins w w.connection refl b
