-- ===== src/Creation/Removal.antt =====
-- Which files `_remove_database_artifacts` of src/django_pyturso/creation.py leaves.
use django_pyturso.Creation.{CreationCalls, remove_all}
use django_pyturso.Exec.{Answer, ok, raised, continue-cases}
use django_pyturso.Prelude.{
  ◌≡◌, refl, ◌∙◌, false, inl, inr, List, [], ◌∷◌, Text, text_eq, contains, All, arith, Bool-cases,
}

module _ (calls : CreationCalls) where
  open calls use {D, exists, unlink, ask}

  -- What is assumed of the file system: removing a file affects no other, a file that was removed no
  -- longer exists, none comes into being, and asking a question changes no file.
  pub record Files : Type 0 where
    pub others : (p q : Text) (d : D) → text_eq p q ≡ false → exists p (unlink q d).1 ≡ exists p d
    pub removed : (p : Text) (d : D) → (unlink p d).0 ≡ ok tt → exists p (unlink p d).1 ≡ false
    pub absent : (p q : Text) (d : D) → exists p d ≡ false → exists p (unlink q d).1 ≡ false
    pub asked : (p : Text) (d : D) → exists p (ask d).1 ≡ exists p d

  module _ (files : Files) where
    pub remove_all-others :
        (p : Text) (names : List Text) (d : D)
        → contains p names ≡ false
        → exists p (remove_all calls names d).1 ≡ exists p d
    unfolding remove_all contains
    remove_all-others p [] d h = refl
    remove_all-others p (q ∷ names) d h = elim (Bool-cases (exists q d)) [
      | inr e ↦ simp e (remove_all-others p names d (ground (arith, h)))
      | inl e ↦ simp e (
          let apart = files.others p q d (ground (arith, h)) in
          continue-cases (λ r. exists p r.1 ≡ exists p d) (unlink q d) _ (λ x _. apart)
            (λ _ _. remove_all-others p names (unlink q d).1 (ground (arith, h)) ∙ apart))
    ]

    pub remove_all-absent :
        (p : Text) (names : List Text) (d : D)
        → exists p d ≡ false
        → exists p (remove_all calls names d).1 ≡ false
    unfolding remove_all
    remove_all-absent p [] d h = h
    remove_all-absent p (q ∷ names) d h = elim (Bool-cases (exists q d)) [
      | inr e ↦ simp e (remove_all-absent p names d h)
      | inl e ↦ simp e (
          continue-cases (λ r. exists p r.1 ≡ false) (unlink q d) _ (λ x _. files.absent p q d h)
            (λ _ _. remove_all-absent p names (unlink q d).1 (files.absent p q d h)))
    ]

    -- None of the names exists, if the removal returned.
    abbrev pub AreRemoved : List Text → Answer (Unit {0}) × D → Type 0
    AreRemoved names (ok _, d) = All (λ p. exists p d ≡ false) names
    AreRemoved names (raised x, d) = Unit

    first_removed :
        (p : Text) (names : List Text) (r : Answer (Unit {0}) × D)
        → exists p r.1 ≡ false
        → AreRemoved names r
        → AreRemoved (p ∷ names) r
    first_removed p names (ok _, d) h k = (h, k)
    first_removed p names (raised x, d) h k = tt

    pub remove_all-AreRemoved :
        (names : List Text) (d : D) → AreRemoved names (remove_all calls names d)
    unfolding remove_all
    remove_all-AreRemoved [] d = tt
    remove_all-AreRemoved (q ∷ names) d = elim (Bool-cases (exists q d)) [
      | inr e ↦ simp e (
          first_removed q names (remove_all calls names d) (remove_all-absent q names d e)
            (remove_all-AreRemoved names d))
      | inl e ↦ simp e (
          continue-cases (AreRemoved (q ∷ names)) (unlink q d) _ (λ x _. tt)
            (λ _ gone.
              first_removed q names (remove_all calls names (unlink q d).1)
                (remove_all-absent q names (unlink q d).1 (files.removed q d gone))
                (remove_all-AreRemoved names (unlink q d).1)))
    ]
