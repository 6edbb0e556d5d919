-- ===== src/Audit/Timestamps.antt =====
-- The timestamps that scripts/audit_dependencies.py accepts for a withdrawal, by its regular
-- expression. Digits are those of ASCII.
use django_pyturso.Decimals.{is_digit}
use django_pyturso.Prelude.{
  ℕ, Bool, true, false, ◌&&◌, ◌||◌, Option, none, some, List, [], ◌∷◌, Text, ◌==◌, leb,
  if◌then◌else◌,
}

-- A part of the expression that is one character.
pub data Part : Type 0 where
  any_digit : Part
  between exactly_one : ℕ → ℕ → Part

abbrev pub fits : Part → ℕ → Bool
fits any_digit c = is_digit c
fits (between a b) c = leb a c && leb c b
fits (exactly_one a b) c = (c == a) || (c == b)

abbrev pub the : ℕ → Part
the c = exactly_one c c

-- What is left of a text behind the parts.
unfoldable pub match_parts : List Part → Text → Option Text
match_parts [] t = some t
match_parts (part ∷ parts) [] = none
match_parts (part ∷ parts) (c ∷ t) =
    let rest = match_parts parts t in if fits part c then rest else none

-- `\d{4}-\d{2}-\d{2}T\d{2}:\d{2}:\d{2}`
abbrev pub date_and_time : List Part
date_and_time =
    any_digit
    ∷ any_digit
    ∷ any_digit
    ∷ any_digit
    ∷ the b'-'
    ∷ any_digit
    ∷ any_digit
    ∷ the b'-'
    ∷ any_digit
    ∷ any_digit
    ∷ the b'T'
    ∷ any_digit
    ∷ any_digit
    ∷ the b':'
    ∷ any_digit
    ∷ any_digit
    ∷ the b':'
    ∷ any_digit
    ∷ any_digit
    ∷ []

abbrev pub matches : List Part → Text → Bool
matches parts t = elim (match_parts parts t) [
  | none ↦ false
  | some [] ↦ true
  | some (_ ∷ _) ↦ false
]

abbrev pub minutes : List Part
minutes = the b':' ∷ between b'0' b'5' ∷ any_digit ∷ []

-- `Z|[+-](?:[01][0-9]|2[0-3]):[0-5][0-9]`
unfoldable pub is_zone : Text → Bool
unfolding match_parts
is_zone t =
    matches (the b'Z' ∷ []) t
    || matches (exactly_one b'+' b'-' ∷ between b'0' b'1' ∷ any_digit ∷ minutes) t
    || matches (exactly_one b'+' b'-' ∷ the b'2' ∷ between b'0' b'3' ∷ minutes) t

unfoldable pub skip_digits : Text → Text
skip_digits [] = []
skip_digits (c ∷ t) = let rest = skip_digits t in if is_digit c then rest else c ∷ t

-- `(?:\.\d+)?` and the zone. No zone begins with a digit, so all digits are in the fraction.
unfoldable pub is_fraction_and_zone : Text → Bool
unfolding is_zone skip_digits
is_fraction_and_zone [] = false
is_fraction_and_zone (c ∷ []) = is_zone (c ∷ [])
is_fraction_and_zone (c ∷ d ∷ t) =
    if c == b'.' then is_digit d && is_zone (skip_digits t) else is_zone (c ∷ d ∷ t)

abbrev pub rest_is_zone : Option Text → Bool
rest_is_zone none = false
rest_is_zone (some t) = is_fraction_and_zone t

-- `re.fullmatch(…) is not None`
unfoldable pub is_timestamp : Text → Bool
unfolding match_parts is_fraction_and_zone
is_timestamp t = rest_is_zone (match_parts date_and_time t)
