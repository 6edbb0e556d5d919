-- ===== src/Creation/Safety.antt =====
-- Which files the creation of a test database removes.
use django_pyturso.Creation.Removal.{Files}
use django_pyturso.Creation.{text, is_in_memory_db, CreationCalls, switch, artifacts}
use django_pyturso.Exec.{Answer, ok, raised}
use django_pyturso.Prelude.{◌≡◌, Bool, true, false, ◌||◌, ◌⊎◌, List, Text, codes, contains, All}

module _ (calls : CreationCalls) where
  open calls use {
    D, as_path, exists, unlink, ask, validate_thread_sharing, validate_no_atomic_block,
    rollback_and_force_close,
  }

  -- What is assumed of the connection: Django's two validations change nothing, and a rollback with a
  -- close adds and removes no files but those of its own database, `own`.
  pub record Closing (own : List Text) : Type 0 where
    pub sharing : (d : D) → (validate_thread_sharing d).1 ≡ d
    pub atomic : (d : D) → (validate_no_atomic_block d).1 ≡ d
    pub closing :
        (p : Text) (d : D)
        → contains p own ≡ false
        → exists p (rollback_and_force_close d).1 ≡ exists p d

  module _ (files : Files calls) where
    module _ (keepdb : Bool) (name : Text) where
      -- Every file exists as before.
      abbrev pub Unchanged : D → D → Type 0
      Unchanged d d' = (p : Text) → exists p d' ≡ exists p d

      -- How the creation ended: it answers the name, and the database is kept, or no file of it is
      -- left.
      abbrev pub Ends : D → Answer Text → D → Type 0
      Ends d (ok n) d' =
          (n ≡ name)
          × (((is_in_memory_db (text name) || keepdb ≡ true) × Unchanged d d')
              ⊎ All (λ p. exists p d' ≡ false) (artifacts calls (as_path name)))
      Ends d (raised x) d' = Unit

      abbrev pub IsSafe : D → Answer Text × D → Type 0
      IsSafe d r =
          ((p : Text)
            → contains p (artifacts calls (as_path name)) ≡ false
            → exists p r.1 ≡ exists p d)
          × Ends d r.0 r.1

      -- The database file exists as before, or it may be overwritten by the option or by consent.
      abbrev pub Consents : Bool → D → Answer Text × D → Type 0
      Consents autoclobber d r =
          (exists (as_path name) r.1 ≡ exists (as_path name) d)
          ⊎ (autoclobber ≡ true)
          ⊎ ((ask d).0 ≡ ok (codes "yes"))

      module _ (own : List Text) (connection : Closing own) where
        -- How the creation ended: it answers the name, with the database in memory or kept and the
        -- files as they were but for the connection's own, or with no file of the database left.
        abbrev pub EndsFor : D → Answer Text → D → Type 0
        EndsFor d (ok n) d' =
            (n ≡ name)
            × (((is_in_memory_db (text name) || keepdb ≡ true)
                  × ((p : Text) → contains p own ≡ false → exists p d' ≡ exists p d))
                ⊎ All (λ p. exists p d' ≡ false) (artifacts calls (as_path name)))
        EndsFor d (raised x) d' = Unit

        abbrev pub IsCreated : Bool → D → Answer Text × D → Type 0
        IsCreated autoclobber d r =
            ((p : Text)
              → (contains p own || contains p (artifacts calls (as_path name))) ≡ false
              → exists p r.1 ≡ exists p d)
            × EndsFor d r.0 r.1
            × Consents autoclobber (switch calls d).1 r
