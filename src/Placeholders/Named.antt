-- ===== src/Placeholders/Named.antt =====
-- `_convert_placeholders` with named parameters.
use django_pyturso.Placeholders.Termination.{scan, scan_rule, convert_placeholders-scan}
use django_pyturso.Prelude.{
  ℕ, ◌≡◌, refl, ◌∙◌, true, false, some, List, [], ◌∷◌, Text, contains, All, arith, Bool-cases, inl,
  inr,
}
use django_pyturso.Placeholders.{
  State, sql, Scan, initial, Outcome, next, stop, key_error, step_line_comment, step_block_comment,
  step_identifier, step_literal, step_percent, step_sql, step_in, Converted, bindings, missing,
  out_of_fuel, convert_placeholders, step_named, scan_name, add_name,
}

module _ (names : List Text) where
  -- Every required name is among the parameters' names.
  abbrev pub AreKnown : List Text → Type 0
  AreKnown required = All (λ name. contains name names ≡ true) required

  -- One round keeps this, counts no positional placeholder, and raises only for a foreign name.
  abbrev Steps : Scan → Text → Outcome → Type 0
  Steps s t (next s' rest) =
      (s'.positional_count ≡ s.positional_count)
      × (AreKnown s.required_names → AreKnown s'.required_names)
  Steps s t (stop s') =
      (s'.positional_count ≡ s.positional_count)
      × (AreKnown s.required_names → AreKnown s'.required_names)
  Steps s t (key_error name) = contains name names ≡ false

  add_name-AreKnown :
      (name : Text) (required : List Text)
      → contains name names ≡ true
      → AreKnown required
      → AreKnown (add_name name required)
  unfolding add_name
  add_name-AreKnown name required h k = elim (Bool-cases (contains name required)) [
    | inl old ↦ rw old k
    | inr new ↦ rw new (h, k)
  ]

  step_named-Steps : (s : Scan) (t name after : Text) → Steps s t (step_named names s name after)
  unfolding step_named
  step_named-Steps s t name [] = (refl, λ k. k)
  step_named-Steps s t name (c ∷ after) = elim (Bool-cases (contains name names)) [
    | inl known ↦ ground (arith, add_name-AreKnown name s.required_names known)
    | inr foreign ↦ ground arith
  ]

  step_percent-Steps :
      (s : Scan) (t : Text) (c : ℕ) (rest : Text) → Steps s t (step_percent (some names) s c rest)
  unfolding step_percent
  step_percent-Steps s t c [] = ground arith
  step_percent-Steps s t c (d ∷ rest) =
      let (name, after) = scan_name rest in ground (arith, step_named-Steps s t name after)

  step_in-Steps :
      (state : State) (s : Scan) (t : Text) (c : ℕ) (rest : Text)
      → Steps s t (step_in state (some names) s c rest)
  unfolding step_in step_line_comment step_block_comment step_identifier step_literal step_sql
  step_in-Steps sql s t c rest = ground (arith, step_percent-Steps s t c rest)
  step_in-Steps state s t c rest = ground arith

  abbrev Settles : Scan → Text → Converted → Type 0
  Settles s t (bindings b) =
      (b.positional_count ≡ s.positional_count)
      × (AreKnown s.required_names → AreKnown b.required_names)
  Settles s t (missing name) = contains name names ≡ false
  Settles s t out_of_fuel = ⊥

  at_next :
      (s s' : Scan) (t rest : Text) (r : Converted)
      → Steps s t (next s' rest)
      → Settles s' rest r
      → Settles s t r
  at_next s s' t rest (bindings b) h k = (k.0 ∙ h.0, λ a. k.1 (h.1 a))
  at_next s s' t rest (missing n) h k = k
  at_next s s' t rest out_of_fuel h k = k

  scan-Settles : (s : Scan) (t : Text) → Settles s t (scan (some names) s t)
  scan-Settles =
      scan_rule (some names) Steps Settles (λ s c rest. step_in-Steps s.state s (c ∷ rest) c rest)
        (λ s. (refl, λ k. k)) at_next (λ s s' t h. h) (λ s t n h. h)

  -- How a conversion with these names may end.
  abbrev pub EndsKnown : Converted → Type 0
  EndsKnown (bindings b) = (b.positional_count ≡ 0) × AreKnown b.required_names
  EndsKnown (missing name) = contains name names ≡ false
  EndsKnown out_of_fuel = ⊥

  Settles-EndsKnown : (query : Text) (r : Converted) → Settles initial query r → EndsKnown r
  Settles-EndsKnown query (bindings b) h = (h.0, h.1 tt)
  Settles-EndsKnown query (missing n) h = h
  Settles-EndsKnown query out_of_fuel h = h

  -- With named parameters the conversion of any text ends. Either it returns, counts no positional
  -- placeholder and requires only names that the mapping has, or it raises `KeyError` for a name
  -- that the mapping lacks.
  pub convert_placeholders-EndsKnown :
      (query : Text) → EndsKnown (convert_placeholders query (some names))
  convert_placeholders-EndsKnown query =
      Settles-EndsKnown query _ (rw convert_placeholders-scan (scan-Settles initial query))
