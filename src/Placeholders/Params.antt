-- ===== src/Placeholders/Params.antt =====
-- `_QueryBindings.prepare_params`, and the part of `execute` and `executemany` that binds the
-- parameters of a query.
pub mod Binding
use django_pyturso.Prelude.{
  ℕ, Bool, true, false, not, ◌&&◌, ◌||◌, Option, none, some, List, [], ◌∷◌, map, Text, length,
  contains, ◌==◌, ltb, if◌then◌else◌,
}
use django_pyturso.Placeholders.{
  QueryBindings, Converted, bindings, missing, out_of_fuel, convert_placeholders,
}

-- The exceptions. `wrong_count` carries the expected and the supplied count.
pub data BindError : Type 0 where
  mapping_required sequence_required no_fuel : BindError
  key_error : Text → BindError
  wrong_count : ℕ → ℕ → BindError

pub data Bound (A : Type 0) : Type 0 where
  ok : A → Bound A
  err : BindError → Bound A

-- Parameters as `isinstance` tells them apart: a mapping, a sequence, a sized iterable that is
-- neither (a set), and a bare iterator, by the items that they yield.
pub data Params (V : Type 0) : Type 0 where
  mapping : List (Text × V) → Params V
  sequence sized iterator : List V → Params V

-- `for name in self.required_names: if name not in params`
unfoldable pub first_missing : List Text → List Text → Option Text
first_missing [] present = none
first_missing (name ∷ required) present =
    if contains name present then first_missing required present else some name

-- The test on the number of supplied values.
abbrev pub miscounts : QueryBindings → ℕ → Bool
miscounts b supplied =
    ltb supplied b.positional_count
    || (not b.native_bindings && not (supplied == b.positional_count))

module _ {V : Type 0} where
  -- `list(params)` of a mapping
  abbrev pub keys : List (Text × V) → List Text
  keys [] = []
  keys ((k, v) ∷ m) = k ∷ keys m

  or_key_error : Option Text → Params V → Bound (Params V)
  or_key_error none params = ok params
  or_key_error (some name) params = err (key_error name)

  -- The tests of `prepare_params` on a mapping, on the required names.
  check_mapping : List Text → QueryBindings → List (Text × V) → Bound (Params V)
  unfolding first_missing or_key_error
  check_mapping [] b m = if b.positional_count == 0 then ok (mapping m) else err sequence_required
  check_mapping (name ∷ required) b m =
      or_key_error (first_missing (name ∷ required) (keys m)) (mapping m)

  -- The tests on anything else, which is returned as a sequence.
  check_items : List Text → QueryBindings → List V → Bound (Params V)
  check_items (name ∷ required) b items = err mapping_required
  check_items [] b items =
      if miscounts b (length items)
      then err (wrong_count b.positional_count (length items))
      else ok (sequence items)

  unfoldable pub prepare_params : QueryBindings → Params V → Bound (Params V)
  unfolding check_mapping check_items
  prepare_params b (mapping m) = check_mapping b.required_names b m
  prepare_params b (sequence items) = check_items b.required_names b items
  prepare_params b (sized items) = check_items b.required_names b items
  prepare_params b (iterator items) = check_items b.required_names b items

  -- `list(params) if isinstance(params, Mapping) else None`
  abbrev pub param_names : Params V → Option (List Text)
  param_names (mapping m) = some (keys m)
  param_names _ = none

  abbrev pub pair_with : QueryBindings → Bound (Params V) → Bound (QueryBindings × Params V)
  pair_with b (ok prepared) = ok (b, prepared)
  pair_with b (err e) = err e

  with_bindings : Converted → Params V → Bound (QueryBindings × Params V)
  unfolding prepare_params
  with_bindings (bindings b) params = pair_with b (prepare_params b params)
  with_bindings (missing name) params = err (key_error name)
  with_bindings out_of_fuel params = err no_fuel

  -- `execute` up to the driver's call: the converted query and the prepared parameters.
  unfoldable pub bind_parameters : Text → Params V → Bound (QueryBindings × Params V)
  unfolding with_bindings
  bind_parameters query params =
      with_bindings (convert_placeholders query (param_names params)) params

  -- `validated_rows` of `executemany`: the rows that the driver is given, and the exception that
  -- ends them, if there is one.
  unfoldable pub validated_rows :
      QueryBindings → List (Params V) → List (Params V) × Option BindError
  unfolding prepare_params
  validated_rows b [] = ([], none)
  validated_rows b (row ∷ rows) =
      let (given, failure) = validated_rows b rows in
      elim (prepare_params b row) [
        | ok prepared ↦ (prepared ∷ given, failure)
        | err e ↦ ([], some e)
      ]
