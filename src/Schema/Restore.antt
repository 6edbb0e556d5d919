-- ===== src/Schema/Restore.antt =====
-- What leaving the schema editor guarantees, whatever fails on the way.
use mathlib.Core.Path.{subst}
use django_pyturso.Exec.{Exc, Answer, ok, raised, ◌>>◌, continue, handle, raise, Answer-cases}
use django_pyturso.Prelude.{
  ℕ, ◌≤◌, ◌≡◌, refl, ◌⊎◌, inl, inr, Bool, Option, none, some, arith, ◌∙◌, sym,
}
use django_pyturso.Schema.{
  Editor, SchemaCalls, foreign_key_state, set_foreign_key_state, restore_if_read,
  restore_foreign_key_state, restore_transaction_mode, finish_editing, exit_schema, exit, first_of,
  as_state, as_bool, forget_foreign_keys, on_database,
}

module _ (calls : SchemaCalls) where
  open calls use {D, read_foreign_keys, write_foreign_keys, force_close, base_exit}

  -- What is assumed of the driver and of Django: a readback that answers reports the enforcement
  -- state `enforced`, and a forced close disposes of the connection.
  pub record Reports (enforced : D → ℕ) (Disposed : D → Type 0) : Type 0 where
    pub reads :
        (d : D) (n : ℕ)
        → (read_foreign_keys d).0 ≡ ok (some n)
        → enforced (read_foreign_keys d).1 ≡ n
    pub disposes : (d : D) → Disposed (force_close d).1

  module _ (enforced : D → ℕ) (Disposed : D → Type 0) (reports : Reports enforced Disposed) where
    set_foreign_key_state-enforced :
        (b : Bool) (s : Editor D)
        → (set_foreign_key_state calls b s).0 ≡ ok tt
        → enforced (set_foreign_key_state calls b s).1.database ≡ as_state calls b
    unfolding set_foreign_key_state foreign_key_state
    set_foreign_key_state-enforced b s h = elim (Answer-cases (write_foreign_keys b s.database).0) [
      | inr (x, w) ↦ ground arith
      | inl (_, w) ↦ elim (Answer-cases (read_foreign_keys (write_foreign_keys b s.database).1).0) [
        | inr (x, r) ↦ ground arith
        | inl (none, r) ↦ ground arith
        | inl (some n, r) ↦ ground (arith, reports.reads (write_foreign_keys b s.database).1 n r)
      ]
    ]

    set_foreign_key_state_frame :
        (b : Bool) (s : Editor D)
        → let s' = (set_foreign_key_state calls b s).1 in s' ≡ record s { database = s'.database }
    unfolding set_foreign_key_state foreign_key_state
    set_foreign_key_state_frame b s = ground arith

    -- Enforcement is as it was read, or the connection is gone.
    abbrev pub IsRestored : ℕ → D → Type 0
    IsRestored n d = (enforced d ≡ n) ⊎ Disposed d

    as_state-as_bool : (n : ℕ) → n ≤ 1 → as_state calls (as_bool calls n) ≡ n
    as_state-as_bool n h = ground arith

    -- A restoration that returned has set the state back, one that raised has disposed.
    abbrev Restores : ℕ → Answer (Unit {0}) × Editor D → Type 0
    Restores n (ok _, s) = enforced s.database ≡ n
    Restores n (raised _, s) = Disposed s.database

    dispose-Restores :
        (n : ℕ) (x : Exc) (s : Editor D)
        → Restores n (continue (on_database calls force_close s) (λ _. raise x))
    dispose-Restores n x s = elim (Answer-cases (force_close s.database).0) [
      | inl (_, h) ↦ simp h (reports.disposes s.database)
      | inr (y, h) ↦ simp h (reports.disposes s.database)
    ]

    forget-Restores :
        (n : ℕ) (p : Answer (Unit {0}) × Editor D)
        → Restores n p
        → Restores n (p.0, forget_foreign_keys calls p.1)
    forget-Restores n (ok _, s) h = h
    forget-Restores n (raised _, s) h = h

    handle-Restores :
        (n : ℕ) (p : Answer (Unit {0}) × Editor D)
        → (p.0 ≡ ok tt → enforced p.1.database ≡ n)
        → Restores n (handle p (λ error. on_database calls force_close >> raise error))
    handle-Restores n (ok _, s) h = h refl
    handle-Restores n (raised x, s) h = dispose-Restores n x s

    restore_foreign_key_state-Restores :
        (n : ℕ) (s : Editor D)
        → s.original_foreign_keys ≡ some n
        → n ≤ 1
        → Restores n (restore_foreign_key_state calls s)
    unfolding restore_foreign_key_state restore_if_read
    restore_foreign_key_state-Restores n s h b =
        subst (λ o. Restores n (restore_if_read calls o s)) (sym h)
          (forget-Restores n _ (
            handle-Restores n (set_foreign_key_state calls (as_bool calls n) s)
              (λ r. set_foreign_key_state-enforced (as_bool calls n) s r ∙ as_state-as_bool n b)))

    Restores-IsRestored :
        (n : ℕ) (p : Answer (Unit {0}) × Editor D) → Restores n p → IsRestored n p.1.database
    Restores-IsRestored n (ok _, s) h = inl h
    Restores-IsRestored n (raised _, s) h = inr h

    database-restore_transaction_mode :
        (s : Editor D) → (restore_transaction_mode calls s).database ≡ s.database
    unfolding restore_transaction_mode
    database-restore_transaction_mode s = ground arith

    -- The editor as Django's exit leaves it: only the database and the deferred statements differ.
    abbrev before_restore : Option Exc → Editor D → Editor D
    before_restore exc s =
        let (schema_error, s1) = finish_editing calls exc s in
        record s1 {
          database =
              (base_exit (first_of calls exc schema_error) s1.transaction_mode s1.database).1;
        }

    original-before_restore :
        (exc : Option Exc) (s : Editor D)
        → (before_restore exc s).original_foreign_keys ≡ s.original_foreign_keys
    unfolding finish_editing
    original-before_restore none s = refl
    original-before_restore (some x) s = refl

    -- Leaving the schema editor restores foreign-key enforcement to the state that was read on
    -- entry, or the connection is disposed of. This holds whether the block raised, the deferred
    -- statements or the constraint check fail, Django's exit fails, or the restoration itself does.
    pub exit-IsRestored :
        (exc : Option Exc) (s : Editor D) (n : ℕ)
        → s.original_foreign_keys ≡ some n
        → n ≤ 1
        → IsRestored n (exit calls exc s).1.database
    unfolding exit exit_schema
    exit-IsRestored exc s n h b =
        rw (database-restore_transaction_mode (exit_schema calls exc s).1) (
          Restores-IsRestored n _ (
            restore_foreign_key_state-Restores n (before_restore exc s)
              (original-before_restore exc s ∙ h) b))
