-- ===== src/Prelude/Dicts.antt =====
-- A Python dictionary with text keys: its items in the order of the keys.
use mathlib.Core.Path.{◌≡◌}
use mathlib.Core.Option.{Option, none, some}
use mathlib.Core.List.{List, [], ◌∷◌}
use native.Mathlib.Omega.{arith}
use django_pyturso.Prelude.Tests.{if◌then◌else◌}
use django_pyturso.Prelude.Texts.{Text, text_eq, text_eq_iff}

abbrev pub Dict {ℓ} : Type ℓ → Type ℓ
Dict A = List (Text × A)

module _ {ℓ} {A : Type ℓ} where
  -- `dict.get(key)`
  unfoldable pub get_item : Text → Dict A → Option A
  unfolding text_eq
  get_item key [] = none
  get_item key ((k, a) ∷ items) =
      let later = get_item key items in if text_eq k key then some a else later

  -- `dict[key] = a`
  unfoldable pub set_item : Text → A → Dict A → Dict A
  unfolding text_eq
  set_item key a [] = (key, a) ∷ []
  set_item key a ((k, b) ∷ items) =
      let rest = set_item key a items in if text_eq k key then (k, a) ∷ items else (k, b) ∷ rest

  -- `dict.pop(key, None)`, for a dictionary in which each key occurs once.
  unfoldable pub pop_item : Text → Dict A → Dict A
  unfolding text_eq
  pop_item key [] = []
  pop_item key ((k, b) ∷ items) =
      let rest = pop_item key items in if text_eq k key then rest else (k, b) ∷ rest

  pub get_item-set_item :
      (key key' : Text) (a : A) (items : Dict A)
      → get_item key (set_item key' a items)
        ≡ (if text_eq key' key then some a else get_item key items)
  unfolding get_item set_item
  get_item-set_item key key' a [] = ground arith
  get_item-set_item key key' a ((k, b) ∷ items) = ground (
    arith,
    get_item-set_item key key' a items,
    text_eq_iff k key',
    text_eq_iff k key,
    text_eq_iff key' key,
  )

  pub get_item-pop_item :
      (key key' : Text) (items : Dict A)
      → get_item key (pop_item key' items) ≡ (if text_eq key' key then none else get_item key items)
  unfolding get_item pop_item
  get_item-pop_item key key' [] = ground arith
  get_item-pop_item key key' ((k, b) ∷ items) = ground (
    arith,
    get_item-pop_item key key' items,
    text_eq_iff k key',
    text_eq_iff k key,
    text_eq_iff key' key,
  )
