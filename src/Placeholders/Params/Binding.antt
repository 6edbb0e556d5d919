-- ===== src/Placeholders/Params/Binding.antt =====
-- What `execute` and `executemany` give to the driver.
use django_pyturso.Placeholders.Named.{convert_placeholders-EndsKnown, EndsKnown, AreKnown}
use django_pyturso.Placeholders.Positional.{convert_placeholders-IsPositional, IsPositional}
use mathlib.Core.Path.{subst}
use django_pyturso.Prelude.{
  ℕ, ◌+◌, ◌≤◌, ◌≡◌, ◌≢◌, refl, true, false, none, List, [], ◌∷◌, Text, length, contains, count,
  arith, All, Bool-cases, sym, inl, inr, inl, inr,
}
use django_pyturso.Placeholders.{QueryBindings, Converted, bindings, missing, out_of_fuel}
use django_pyturso.Placeholders.Params.{
  key_error, wrong_count, Bound, ok, err, Params, mapping, sequence, keys, first_missing,
  check_mapping, check_items, with_bindings, bind_parameters, pair_with, miscounts,
}

first_missing-none :
    (required present : List Text)
    → All (λ name. contains name present ≡ true) required
    → first_missing required present ≡ none
unfolding first_missing
first_missing-none [] present h = refl
first_missing-none (name ∷ required) present h = rw h.0 (first_missing-none required present h.1)

module _ {V : Type 0} where
  check_mapping-known :
      (required : List Text) (b : QueryBindings) (m : List (Text × V))
      → b.positional_count ≡ 0
      → AreKnown (keys m) required
      → check_mapping required b m ≡ ok (mapping m)
  unfolding check_mapping
  check_mapping-known [] b m z k = ground arith
  check_mapping-known (name ∷ required) b m z k =
      rw (first_missing-none (name ∷ required) (keys m) k)

  -- How binding a mapping may end.
  abbrev pub BindsMapping : List (Text × V) → Bound (QueryBindings × Params V) → Type 0
  BindsMapping m (ok (b, p)) = (p ≡ mapping m) × AreKnown (keys m) b.required_names
  BindsMapping m (err e) = (name : Text) × (e ≡ key_error name) × (contains name (keys m) ≡ false)

  with_bindings-BindsMapping :
      (m : List (Text × V)) (r : Converted)
      → EndsKnown (keys m) r
      → BindsMapping m (with_bindings r (mapping m))
  unfolding with_bindings
  with_bindings-BindsMapping m (bindings b) h =
      subst (λ r. BindsMapping m (pair_with b r))
        (sym (check_mapping-known b.required_names b m h.0 h.1)) (refl, h.1)
  with_bindings-BindsMapping m (missing name) h = (name, refl, h)
  with_bindings-BindsMapping m out_of_fuel h = absurd h

  -- `execute` with a mapping either gives the driver that mapping, which has every required name,
  -- or raises `KeyError` for a name that the mapping lacks. No other exception is possible.
  pub bind_parameters-BindsMapping :
      (query : Text) (m : List (Text × V)) → BindsMapping m (bind_parameters query (mapping m))
  unfolding bind_parameters
  bind_parameters-BindsMapping query m =
      with_bindings-BindsMapping m _ (convert_placeholders-EndsKnown (keys m) query)

  -- How binding a sequence may end.
  abbrev pub BindsSequence : Text → List V → Bound (QueryBindings × Params V) → Type 0
  BindsSequence query items (ok (b, p)) =
      (p ≡ sequence items)
      × (b.positional_count ≤ length items)
      × (b.native_bindings ≡ false → count b'?' b.query ≡ length items + count b'?' query)
  BindsSequence query items (err e) =
      (expected : ℕ) × (e ≡ wrong_count expected (length items)) × (expected ≢ length items)

  check_items-BindsSequence :
      (query : Text) (items : List V) (required : List Text) (b : QueryBindings)
      → required ≡ []
      → count b'?' b.query ≡ b.positional_count + count b'?' query
      → BindsSequence query items (pair_with b (check_items required b items))
  unfolding check_items
  check_items-BindsSequence query items (name ∷ required) b h marks = cc
  check_items-BindsSequence query items [] b h marks =
      elim (Bool-cases (miscounts b (length items))) [
        | inl wrong ↦ rw (wrong, pair_with) (b.positional_count, refl, ground arith)
        | inr right ↦ rw (right, pair_with) (refl, ground arith, λ native. ground arith)
      ]

  with_bindings-BindsSequence :
      (query : Text) (items : List V) (r : Converted)
      → IsPositional query r
      → BindsSequence query items (with_bindings r (sequence items))
  unfolding with_bindings
  with_bindings-BindsSequence query items r h =
      let b = h.result in
      rw h.returned (check_items-BindsSequence query items b.required_names b h.no_names h.marks)

  -- `execute` with a sequence never asks for names. It gives the driver the sequence as it is, with
  -- at least one value for each counted placeholder. If the query has no native placeholder, the
  -- converted query has as many new marks `?` as there are values. Otherwise the exception tells a
  -- count that differs from the supplied one.
  pub bind_parameters-BindsSequence :
      (query : Text) (items : List V)
      → BindsSequence query items (bind_parameters query (sequence items))
  unfolding bind_parameters
  bind_parameters-BindsSequence query items =
      with_bindings-BindsSequence query items _ (convert_placeholders-IsPositional query)
