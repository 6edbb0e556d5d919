-- ===== src/Audit/Clean.antt =====
-- When the audit of all dependencies passes.
use django_pyturso.Audit.Release.{ReleaseCalls, Version, audit_release, is_vulnerable, audit_all}
use django_pyturso.Exec.{ok, then_do-ok}
use django_pyturso.Prelude.{
  ◌≡◌, refl, ◌∙◌, ap, ◌↔◌, true, false, List, [], ◌∷◌, Text, Dict, All, arith,
}

module _ (calls : ReleaseCalls) where
  -- The release was audited, and has no active advisory.
  abbrev pub IsClean : Text × Version calls → Type 0
  IsClean dependency = audit_release calls dependency.0 dependency.1 ≡ ok []

  vulnerable_fails :
      (dependencies : Dict (Version calls)) → (audit_all calls dependencies true ≡ ok tt) → ⊥
  unfolding audit_all
  vulnerable_fails [] h = ground arith
  vulnerable_fails ((name, version) ∷ dependencies) h =
      let (active, _, h1) = then_do-ok (audit_release calls name version) _ tt h in
      vulnerable_fails dependencies h1

  passed-no_active :
      (dependencies : Dict (Version calls)) (active : List Text)
      → audit_all calls dependencies (is_vulnerable calls active) ≡ ok tt
      → (active ≡ []) × (audit_all calls dependencies false ≡ ok tt)
  passed-no_active dependencies [] h = (refl, h)
  passed-no_active dependencies (_ ∷ _) h = absurd (vulnerable_fails dependencies h)

  passed-IsClean :
      (dependencies : Dict (Version calls))
      → audit_all calls dependencies false ≡ ok tt
      → All IsClean dependencies
  unfolding audit_all
  passed-IsClean [] h = tt
  passed-IsClean ((name, version) ∷ dependencies) h =
      let (active, e, h1) = then_do-ok (audit_release calls name version) _ tt h in
      let (none_active, passed) = passed-no_active dependencies active h1 in
      (e ∙ ap ok none_active, passed-IsClean dependencies passed)

  clean_passes :
      (dependencies : Dict (Version calls))
      → All IsClean dependencies
      → audit_all calls dependencies false ≡ ok tt
  unfolding audit_all
  clean_passes [] h = refl
  clean_passes ((name, version) ∷ dependencies) h = rw h.0 (clean_passes dependencies h.1)

  -- The audit of all dependencies passes exactly if the audit of each one returns and finds no active
  -- advisory.
  pub audit_all-IsClean :
      (dependencies : Dict (Version calls))
      → (audit_all calls dependencies false ≡ ok tt) ↔ All IsClean dependencies
  audit_all-IsClean dependencies = (passed-IsClean dependencies, clean_passes dependencies)
