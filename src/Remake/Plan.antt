-- ===== src/Remake/Plan.antt =====
-- Where the data of a field that is altered goes.
use mathlib.Core.Path.{subst}
use django_pyturso.Exec.{then_do-rule, ◌then_do◌, Answer, ok, raised, Answer-cases}
use django_pyturso.Identifiers.{quote_name}
use django_pyturso.Prelude.{
  ◌≡◌, refl, ◌⊎◌, inl, inr, true, false, not, ◌&&◌, none, some, [], ◌∷◌, Text, text_eq, text_eq_iff,
  text_eq_refl, get_item, pop_item, get_item-set_item, get_item-pop_item, arith, Bool-cases,
}
use django_pyturso.Remake.Data.{column-column_of}
use django_pyturso.Remake.{
  Field, Model, Copying, Defaults, column_of, alter, alter_all, delete, plan_copying, coalesce,
  copied_from, new_default, start_copying, demote_if, adds_key, create,
}

module _ (defaults : Defaults) (old new : Field) where
  -- The expression that the altered column is copied from: the old column or, where nulls are no
  -- longer allowed, the old column with the default in the place of nulls.
  abbrev pub IsSource : Text → Text → Type 0
  IsSource d expression =
      ((old.null && not new.null ≡ false) × (expression ≡ quote_name d))
      ⊎ ((old.null && not new.null ≡ true)
          × ((default : Text) × (new_default defaults new ≡ ok default)
              × (expression ≡ coalesce defaults d default)))

  -- The altered column has its data from the old one, and a column that was renamed is no longer
  -- copied to under its old name.
  abbrev pub Moves : Text → Text → Answer Copying → Type 0
  Moves c d (ok s) =
      ((expression : Text) × (get_item c s.mapping ≡ some expression) × IsSource d expression)
      × (text_eq d c ≡ false → get_item d s.mapping ≡ none)
  Moves c d (raised x) = Unit

  copied_from-IsSource :
      (d expression : Text) → copied_from defaults old new d ≡ ok expression → IsSource d expression
  copied_from-IsSource d expression h = elim (Bool-cases (old.null && not new.null)) [
    | inr plain ↦ inl (plain, ground (arith, h, plain))
    | inl narrowed ↦ elim (Answer-cases (new_default defaults new)) [
      | inl (default, e) ↦ inr (narrowed, (default, e, ground (arith, h, narrowed, e)))
      | inr (x, e) ↦ ground (arith, h, narrowed, e)
    ]
  ]

  alter-Moves :
      (c d : Text) (s : Copying)
      → new.generated ≡ false
      → old.column ≡ some d
      → new.column ≡ some c
      → Moves c d (alter defaults old new s)
  unfolding alter
  alter-Moves c d s g eo en =
      then_do-rule (Moves c d) (column_of old) _ (λ x. tt)
        (λ d' e1. simp g (
          then_do-rule (Moves c d) (copied_from defaults old new d') _ (λ x. tt)
            (λ expression f.
              then_do-rule (Moves c d) (column_of new) _ (λ x. tt)
                (λ c' e2.
                  let same_d : d' ≡ d = ground (arith, column-column_of old d' e1, eo) in
                  let same_c : c' ≡ c = ground (arith, column-column_of new c' e2, en) in
                  (
                    (
                      expression,
                      ground (
                        arith,
                        get_item-set_item c c' expression (pop_item d' s.mapping),
                        same_c,
                        text_eq_refl c,
                      ),
                      subst (λ k. IsSource k expression) same_d
                          (copied_from-IsSource d' expression f),
                    ),
                    λ apart. ground (
                      arith,
                      get_item-set_item d c' expression (pop_item d' s.mapping),
                      same_c,
                      get_item-pop_item d d' s.mapping,
                      same_d,
                      text_eq_refl d,
                      apart,
                      text_eq_iff c d,
                      text_eq_iff d c,
                    ),
                  )))))

  -- When a table is remade for one altered field, that is not generated, the altered column is
  -- copied from the column of the field before. Only where nulls were allowed and no longer are, the
  -- new default takes the place of nulls. If the column was renamed, nothing is copied to the old name.
  pub plan_copying-Moves :
      (model : Model) (c d : Text)
      → new.generated ≡ false
      → old.column ≡ some d
      → new.column ≡ some c
      → Moves c d (plan_copying defaults model none none ((old, new) ∷ []))
  unfolding plan_copying alter_all delete
  plan_copying-Moves model c d g eo en =
      unchanged (delete defaults none) (λ s. refl) _
        (then_do-rule (Moves c d)
          (start_copying model
            then_do demote_if defaults (adds_key none ((old, new) ∷ [])) ((old, new) ∷ [])
            then_do create defaults none)
          (alter_all defaults ((old, new) ∷ [])) (λ x. tt)
          (λ s e.
            unchanged (alter_all defaults []) (λ s'. refl) (alter defaults old new s)
              (alter-Moves c d s g eo en)))
    where
      unchanged :
          (f : Copying → Answer Copying)
          → ((s : Copying) → f s ≡ ok s)
          → (a : Answer Copying) → Moves c d a
          → Moves c d (a then_do f)
      unchanged f h (ok s) k = rw h k
      unchanged f h (raised x) k = tt
