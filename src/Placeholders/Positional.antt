-- ===== src/Placeholders/Positional.antt =====
-- `_convert_placeholders` with positional parameters: it raises nothing, and it writes one `?` for
-- each placeholder that it counts.
use django_pyturso.Prelude.{ℕ, ◌+◌, ◌≡◌, none, [], ◌∷◌, Text, count, count-append, arith, ◌∙◌, refl}
use django_pyturso.Placeholders.Termination.{scan, scan_rule, convert_placeholders-scan}
use django_pyturso.Placeholders.{
  State, sql, Scan, Outcome, next, stop, key_error, step_line_comment, step_block_comment,
  step_identifier, step_literal, step_percent, step_sql, step_in, Converted, bindings, missing,
  out_of_fuel, QueryBindings, convert_placeholders, initial,
}

-- What one round does to the marks `?` and to the counters.
abbrev Steps : Scan → Text → Outcome → Type 0
Steps s t (next s' rest) =
    (count b'?' s'.converted + s.positional_count + count b'?' rest
      ≡ count b'?' s.converted + s'.positional_count + count b'?' t)
    × (s'.required_names ≡ s.required_names)
Steps s t (stop _) = ⊥
Steps s t (key_error _) = ⊥

step_percent-Steps :
    (s : Scan) (c : ℕ) (rest : Text) → Steps s (c ∷ rest) (step_percent none s c rest)
unfolding step_percent
step_percent-Steps s c [] = ground (arith, count-append b'?' s.converted (c ∷ []))
step_percent-Steps s c (d ∷ rest) = ground (
  arith,
  count-append b'?' s.converted (c ∷ []),
  count-append b'?' s.converted (b'%' ∷ []),
  count-append b'?' s.converted (b'?' ∷ []),
)

step_in-Steps :
    (state : State) (s : Scan) (c : ℕ) (rest : Text)
    → Steps s (c ∷ rest) (step_in state none s c rest)
unfolding step_in step_line_comment step_block_comment step_identifier step_literal step_sql
step_in-Steps sql s c [] =
    ground (arith, step_percent-Steps s c [], count-append b'?' s.converted (c ∷ []))
step_in-Steps sql s c (d ∷ rest) = ground (
  arith,
  step_percent-Steps s c (d ∷ rest),
  count-append b'?' s.converted (c ∷ []),
  count-append b'?' s.converted (b'-' ∷ b'-' ∷ []),
  count-append b'?' s.converted (b'/' ∷ b'*' ∷ []),
)
step_in-Steps state s c [] = ground (arith, count-append b'?' s.converted (c ∷ []))
step_in-Steps state s c (d ∷ rest) = ground (
  arith,
  count-append b'?' s.converted (c ∷ []),
  count-append b'?' s.converted (b'*' ∷ b'/' ∷ []),
  count-append b'?' s.converted (c ∷ s.closing_quote ∷ []),
  count-append b'?' s.converted (b'\'' ∷ b'\'' ∷ []),
  count-append b'?' s.converted (b'%' ∷ []),
)

-- The same, of the whole loop.
abbrev Settles : Scan → Text → Converted → Type 0
Settles s t (bindings b) =
    (count b'?' b.query + s.positional_count
      ≡ count b'?' s.converted + b.positional_count + count b'?' t)
    × (b.required_names ≡ s.required_names)
Settles s t (missing _) = ⊥
Settles s t out_of_fuel = ⊥

at_next :
    (s s' : Scan) (t rest : Text) (r : Converted)
    → Steps s t (next s' rest)
    → Settles s' rest r
    → Settles s t r
at_next s s' t rest (bindings b) h k = (omega arith, k.1 ∙ h.1)
at_next s s' t rest (missing n) h k = k
at_next s s' t rest out_of_fuel h k = k

scan-Settles : (s : Scan) (t : Text) → Settles s t (scan none s t)
scan-Settles =
    scan_rule none Steps Settles (λ s c rest. step_in-Steps s.state s c rest)
      (λ s. (omega arith, refl)) at_next (λ s s' t h. absurd h) (λ s t n h. absurd h)

-- How a conversion with positional parameters ends.
pub record IsPositional (query : Text) (r : Converted) : Type 0 where
  pub result : QueryBindings
  pub returned : r ≡ bindings result
  pub marks : count b'?' result.query ≡ result.positional_count + count b'?' query
  pub no_names : result.required_names ≡ []

Settles-IsPositional :
    (query : Text) (r : Converted) → Settles initial query r → IsPositional query r
Settles-IsPositional query (bindings b) h = record {
  result = b;
  returned = refl;
  marks = omega arith;
  no_names = h.1;
}
Settles-IsPositional query (missing n) h = absurd h
Settles-IsPositional query out_of_fuel h = absurd h

-- With positional parameters the conversion of any text returns, with no exception. The `?` in the
-- converted query are those of the query and one for each counted placeholder, and no name is
-- required.
pub convert_placeholders-IsPositional :
    (query : Text) → IsPositional query (convert_placeholders query none)
convert_placeholders-IsPositional query =
    Settles-IsPositional query _ (rw convert_placeholders-scan (scan-Settles initial query))
