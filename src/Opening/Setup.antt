-- ===== src/Opening/Setup.antt =====
-- What a connection that was opened guarantees.
use mathlib.Core.Path.{subst, ap}
use django_pyturso.Exec.{
  Answer, ok, raised, continue, handle, lift, raise, ◌>>◌, Exc, continue-cases, pure,
  database_error,
}
use django_pyturso.Opening.{
  Cell, OpenCalls, text, integer, opaque, configure_if_set, is_one, enforce_foreign_keys, prepare,
  closing, set_up, version_of_row,
}
use django_pyturso.Opening.Journal.{Reports, IsKnown, HasMode, configure_if_set-HasMode}
use django_pyturso.Prelude.{
  if◌then◌else◌, ℕ, ◌≡◌, refl, sym, ◌∙◌, Bool, true, false, Option, none, some, Text, codes, arith,
}

module _ (calls : OpenCalls) where
  open calls use {E, upper, close_cursor, execute, fetchall, query, close, open_cursor}

  module _ (enforced : E → ℕ) (journal : E → Text) (Closed : E → Type 0)
      (reports : Reports calls enforced journal Closed) where
    is_one_lem : (row : Option Cell) → is_one calls row ≡ true → row ≡ some (integer 1)
    is_one_lem none h = ground arith
    is_one_lem (some (integer n)) h = ground arith
    is_one_lem (some (text t)) h = ground arith
    is_one_lem (some opaque) h = ground arith

    -- Foreign keys are enforced and the journal is in the mode asked for, if the call returned.
    abbrev pub IsReady : {A : Type 0} → Option Text → Answer A × E → Type 0
    IsReady mode (ok _, e) = (enforced e ≡ 1) × HasMode calls mode (journal e)
    IsReady mode (raised _, e) = Unit

    test-IsReady :
        (mode : Option Text) (b : Bool) (e : E)
        → (b ≡ true → enforced e ≡ 1)
        → HasMode calls mode (journal e)
        → IsReady mode ((if b then pure tt else raise database_error) e)
    test-IsReady mode true e h k = (h refl, k)
    test-IsReady mode false e h k = tt

    enforce_foreign_keys-IsReady :
        (mode : Option Text) (e : E)
        → HasMode calls mode (journal e)
        → IsReady mode (enforce_foreign_keys calls e)
    unfolding enforce_foreign_keys
    enforce_foreign_keys-IsReady mode e h =
        continue-cases (IsReady mode) (execute (codes "PRAGMA foreign_keys = ON") e) _ (λ x q. tt)
          (λ _ q.
            continue-cases (IsReady mode) (query (codes "PRAGMA foreign_keys") _) _ (λ x r. tt)
              (λ row r.
                test-IsReady mode (is_one calls row) _
                  (λ one. reports.reads_enforced _ 1 (r ∙ ap ok (is_one_lem row one)))
                  (subst (HasMode calls mode)
                    (sym (reports.journal_readback _ ∙ reports.journal_pragma e)) h)))

    version-IsReady :
        (mode : Option Text) (e : E)
        → (enforced e ≡ 1) × HasMode calls mode (journal e)
        → IsReady mode (
            continue
              (query (codes "SELECT sqlite_version()") e)
              (λ row. lift (version_of_row calls row)))
    version-IsReady mode e (h, k) =
        continue-cases (IsReady mode) (query (codes "SELECT sqlite_version()") e) _ (λ x q. tt)
          (λ row q. answer (version_of_row calls row))
      where
        answer :
            {A : Type 0} (r : Answer A)
            → IsReady mode (r, (query (codes "SELECT sqlite_version()") e).1)
        answer (ok _) = (
          reports.enforced_version e ∙ h,
          subst (HasMode calls mode) (sym (reports.journal_version e)) k,
        )
        answer (raised _) = tt

    returned-IsReady :
        {A : Type 0} (mode : Option Text) (p : Answer A × E) (a : A)
        → p.0 ≡ ok a
        → IsReady mode p
        → (enforced p.1 ≡ 1) × HasMode calls mode (journal p.1)
    returned-IsReady mode (ok _, e) a h k = k
    returned-IsReady mode (raised _, e) a h k = ground arith

    prepare-IsReady :
        (mode : Option Text) (e : E) → IsKnown calls mode → IsReady mode (prepare calls mode e)
    unfolding prepare
    prepare-IsReady mode e known =
        continue-cases (IsReady mode) (configure_if_set calls mode e) _ (λ x q. tt)
          (λ _ q.
            continue-cases (IsReady mode) (enforce_foreign_keys calls _) _ (λ x r. tt)
              (λ _ r. version-IsReady mode _ (
                returned-IsReady mode _ tt r (
                  enforce_foreign_keys-IsReady mode _ (
                    configure_if_set-HasMode calls enforced journal Closed reports mode e known
                      q)))))

    closing-IsReady :
        {A : Type 0} (mode : Option Text) (p : Answer A × E)
        → IsReady mode p
        → IsReady mode (closing calls p)
    closing-IsReady mode (raised x, e) k =
        continue-cases (IsReady mode) (close_cursor e) _ (λ x q. tt) (λ _ q. tt)
    closing-IsReady mode (ok a, e) k =
        continue-cases (IsReady mode) (close_cursor e) _ (λ x q. tt)
          (λ _ q. (
            reports.enforced_close e ∙ k.0,
            subst (HasMode calls mode) (sym (reports.journal_close e)) k.1,
          ))

    -- A connection that was returned is ready, one that was refused is closed.
    abbrev pub IsSetUp : {A : Type 0} → Option Text → Answer A × E → Type 0
    IsSetUp mode (ok _, e) = (enforced e ≡ 1) × HasMode calls mode (journal e)
    IsSetUp mode (raised _, e) = Closed e

    close-IsSetUp :
        (A : Type 0) (mode : Option Text) (x : Exc) (e : E)
        → IsSetUp {A = A} mode ((close >> raise x) e)
    close-IsSetUp A mode x e =
        continue-cases (IsSetUp mode) (close e) _ (λ y q. reports.closes e)
          (λ _ q. reports.closes e)

    handle-IsSetUp :
        {A : Type 0} (mode : Option Text) (p : Answer A × E)
        → IsReady mode p
        → IsSetUp mode (handle p (λ error. close >> raise error))
    handle-IsSetUp mode (ok _, e) k = k
    handle-IsSetUp mode (raised x, e) k = close-IsSetUp _ mode x e

    -- A new connection that was opened for no journal mode, `WAL` or `MVCC`, is returned only with
    -- foreign keys enforced and with the journal in that mode. If any step of its setup raises, the
    -- close of the cursor included, the connection has been closed.
    pub set_up-IsSetUp :
        (mode : Option Text) (e : E) → IsKnown calls mode → IsSetUp mode (set_up calls mode e)
    unfolding set_up
    set_up-IsSetUp mode e known = handle-IsSetUp mode _ (
        continue-cases (IsReady mode) (open_cursor e) _ (λ x q. tt)
          (λ _ q. closing-IsReady mode _ (prepare-IsReady mode _ known)))
