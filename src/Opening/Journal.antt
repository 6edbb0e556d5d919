-- ===== src/Opening/Journal.antt =====
-- What is assumed of the driver that opens a connection, and what the setup of the journal mode does.
use django_pyturso.Exec.{Answer, ok, continue, Answer-cases, continue-cases}
use django_pyturso.Opening.{
  Cell, OpenCalls, text, integer, opaque, reported_mode, is_mvcc, enable_mvcc, adapt_mode,
  configure_journal_mode, configure_if_set, confirm_mvcc,
}
use django_pyturso.Prelude.{
  ℕ, ◌≡◌, refl, ◌∙◌, inl, inr, true, Option, none, some, List, [], ◌∷◌, Text, codes, text_eq_iff,
  contains, arith, Bool-cases,
}

module _ (calls : OpenCalls) where
  open calls use {E, open_cursor, upper, close_cursor, execute, fetchall, query, close}

  -- What is assumed of the driver: the two readbacks report the enforcement state and the journal
  -- mode, no other statement of the method changes what has been set up before it, and a close
  -- closes.
  pub record Reports (enforced : E → ℕ) (journal : E → Text) (Closed : E → Type 0) : Type 0 where
    pub reads_enforced :
        (e : E) (n : ℕ)
        → (query (codes "PRAGMA foreign_keys") e).0 ≡ ok (some (integer n))
        → enforced (query (codes "PRAGMA foreign_keys") e).1 ≡ n
    pub reads_journal :
        (e : E) (t : Text)
        → (query (codes "PRAGMA journal_mode") e).0 ≡ ok (some (text t))
        → journal (query (codes "PRAGMA journal_mode") e).1 ≡ upper t
    pub journal_pragma :
        (e : E) → journal (execute (codes "PRAGMA foreign_keys = ON") e).1 ≡ journal e
    pub journal_readback : (e : E) → journal (query (codes "PRAGMA foreign_keys") e).1 ≡ journal e
    pub journal_version :
        (e : E) → journal (query (codes "SELECT sqlite_version()") e).1 ≡ journal e
    pub enforced_version :
        (e : E) → enforced (query (codes "SELECT sqlite_version()") e).1 ≡ enforced e
    pub journal_close : (e : E) → journal (close_cursor e).1 ≡ journal e
    pub enforced_close : (e : E) → enforced (close_cursor e).1 ≡ enforced e
    pub closes : (e : E) → Closed (close e).1

  abbrev journal_modes : List Text
  journal_modes = codes "WAL" ∷ codes "MVCC" ∷ []

  -- A mode that was asked for is one of the two, and the journal has it.
  abbrev pub IsKnown : Option Text → Type 0
  IsKnown none = Unit
  IsKnown (some m) = contains m (codes "WAL" ∷ codes "MVCC" ∷ []) ≡ true

  abbrev pub HasMode : Option Text → Text → Type 0
  HasMode none j = Unit
  HasMode (some m) j = j ≡ m

  module _ (enforced : E → ℕ) (journal : E → Text) (Closed : E → Type 0)
      (reports : Reports enforced journal Closed) where
    reported_mode_lem :
        (row : Option Cell) (m : Text)
        → reported_mode calls row ≡ some m
        → (t : Text) × (row ≡ some (text t)) × (upper t ≡ m)
    unfolding reported_mode
    reported_mode_lem none m h = ground arith
    reported_mode_lem (some (text t)) m h = (t, refl, ground arith)
    reported_mode_lem (some (integer n)) m h = ground arith
    reported_mode_lem (some opaque) m h = ground arith

    is_mvcc_lem :
        (row : Option Cell)
        → is_mvcc calls row ≡ true
        → (t : Text) × (row ≡ some (text t)) × (upper t ≡ codes "MVCC")
    is_mvcc_lem none h = ground arith
    is_mvcc_lem (some (text t)) h = (t, refl, (text_eq_iff (upper t) (codes "MVCC")).0 h)
    is_mvcc_lem (some (integer n)) h = ground arith
    is_mvcc_lem (some opaque) h = ground arith

    abbrev readback : E → Answer (Option Cell) × E
    readback = query (codes "PRAGMA journal_mode")

    confirm-journal :
        (e : E)
        → (continue (readback e) (confirm_mvcc calls)).0 ≡ ok tt
        → journal (continue (readback e) (confirm_mvcc calls)).1 ≡ codes "MVCC"
    confirm-journal e h = elim (Answer-cases (readback e).0) [
      | inr (x, q) ↦ ground arith
      | inl (row, q) ↦ elim (Bool-cases (is_mvcc calls row)) [
        | inr other ↦ ground (arith, q, other)
        | inl mvcc ↦
            let (t, r, u) = is_mvcc_lem row mvcc in
            ground (arith, q, mvcc, reports.reads_journal e t (ground (arith, q, r)), u)
      ]
    ]

    enable_mvcc-journal :
        (e : E) → (enable_mvcc calls e).0 ≡ ok tt → journal (enable_mvcc calls e).1 ≡ codes "MVCC"
    unfolding enable_mvcc
    enable_mvcc-journal e h =
        elim (Answer-cases (execute (codes "PRAGMA journal_mode = MVCC") e).0) [
          | inr (x, q) ↦ ground arith
          | inl (_, q) ↦
              elim (Answer-cases (fetchall (execute (codes "PRAGMA journal_mode = MVCC") e).1).0) [
                | inr (x, f) ↦ ground arith
                | inl (_, f) ↦ ground (
                  arith,
                  confirm-journal (fetchall (execute (codes "PRAGMA journal_mode = MVCC") e).1).1,
                )
              ]
        ]

    -- What the setting up of the journal mode has done when it returned.
    abbrev Sets : Text → Answer (Unit {0}) × E → Type 0
    Sets m p = p.0 ≡ ok tt → journal p.1 ≡ m

    adapt_mode-Sets :
        (m : Text) (reported : Option Text) (e : E)
        → contains m (codes "WAL" ∷ codes "MVCC" ∷ []) ≡ true
        → ((t : Text) → reported ≡ some t → journal e ≡ t)
        → Sets m (adapt_mode calls m reported e)
    unfolding adapt_mode contains
    adapt_mode-Sets m none e known read h = ground arith
    adapt_mode-Sets m (some t) e known read h = ground (
      arith,
      read t refl,
      text_eq_iff t m,
      text_eq_iff m (codes "WAL"),
      text_eq_iff m (codes "MVCC"),
      enable_mvcc-journal e,
    )

    configure_journal_mode-Sets :
        (m : Text) (e : E)
        → contains m (codes "WAL" ∷ codes "MVCC" ∷ []) ≡ true
        → Sets m (configure_journal_mode calls m e)
    unfolding configure_journal_mode
    configure_journal_mode-Sets m e known =
        continue-cases (Sets m) (readback e) _ (λ x q h. ground arith)
          (λ row q. adapt_mode-Sets m (reported_mode calls row) (readback e).1 known (λ t r.
            let (u, s, v) = reported_mode_lem row t r in
            reports.reads_journal e u (ground (arith, q, s)) ∙ v))

    pub configure_if_set-HasMode :
        (mode : Option Text) (e : E)
        → IsKnown mode
        → (configure_if_set calls mode e).0 ≡ ok tt
        → HasMode mode (journal (configure_if_set calls mode e).1)
    configure_if_set-HasMode none e known h = tt
    configure_if_set-HasMode (some m) e known h = configure_journal_mode-Sets m e known h
