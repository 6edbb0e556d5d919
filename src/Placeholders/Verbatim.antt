-- ===== src/Placeholders/Verbatim.antt =====
-- Queries without a percent sign.
use django_pyturso.Placeholders.Termination.{scan, scan_rule, convert_placeholders-scan}
use django_pyturso.Prelude.{
  ℕ, ◌≡◌, refl, Option, none, some, List, [], ◌∷◌, ◌++◌, Text, count, append_assoc, append-nil,
  arith, ◌∙◌, sym,
}
use django_pyturso.Placeholders.{
  State, sql, Scan, initial, Outcome, next, stop, key_error, step_line_comment, step_block_comment,
  step_identifier, step_literal, step_percent, step_sql, step_in, QueryBindings, Converted,
  bindings, missing, out_of_fuel, convert_placeholders, emit_plain,
}

-- The text moved to the output, and nothing was counted.
abbrev Moves : Scan → Text → Outcome → Type 0
Moves s t (next s' rest) =
    (s'.converted ++ rest ≡ s.converted ++ t)
    × (s'.positional_count ≡ s.positional_count)
    × (s'.required_names ≡ s.required_names)
    × (count b'%' rest ≡ 0)
Moves s t (stop _) = ⊥
Moves s t (key_error _) = ⊥

step_percent-eq_next :
    (names : Option (List Text)) (s : Scan) (c : ℕ) (rest : Text)
    → count b'%' (c ∷ rest) ≡ 0
    → step_percent names s c rest ≡ next (emit_plain s c) rest
unfolding step_percent
step_percent-eq_next none s c rest h = ground arith
step_percent-eq_next (some names) s c rest h = ground arith

step_in-Moves :
    (state : State) (names : Option (List Text)) (s : Scan) (c : ℕ) (rest : Text)
    → count b'%' (c ∷ rest) ≡ 0
    → Moves s (c ∷ rest) (step_in state names s c rest)
unfolding step_in step_line_comment step_block_comment step_identifier step_literal step_sql
step_in-Moves sql names s c [] h =
    ground (arith, step_percent-eq_next names s c [], append_assoc s.converted (c ∷ []) [])
step_in-Moves sql names s c (d ∷ rest) h = ground (
  arith,
  step_percent-eq_next names s c (d ∷ rest),
  append_assoc s.converted (c ∷ []) (d ∷ rest),
  append_assoc s.converted (b'-' ∷ b'-' ∷ []) rest,
  append_assoc s.converted (b'/' ∷ b'*' ∷ []) rest,
)
step_in-Moves state names s c [] h = ground (arith, append_assoc s.converted (c ∷ []) [])
step_in-Moves state names s c (d ∷ rest) h = ground (
  arith,
  append_assoc s.converted (c ∷ []) (d ∷ rest),
  append_assoc s.converted (b'*' ∷ b'/' ∷ []) rest,
  append_assoc s.converted (b'\'' ∷ b'\'' ∷ []) rest,
  append_assoc s.converted (c ∷ s.closing_quote ∷ []) rest,
)

abbrev Settles : Scan → Text → Converted → Type 0
Settles s t (bindings b) =
    (b.query ≡ s.converted ++ t)
    × (b.positional_count ≡ s.positional_count)
    × (b.required_names ≡ s.required_names)
Settles s t (missing _) = ⊥
Settles s t out_of_fuel = ⊥

at_next :
    (s s' : Scan) (t rest : Text) (r : Converted)
    → (count b'%' t ≡ 0 → Moves s t (next s' rest))
    → (count b'%' rest ≡ 0 → Settles s' rest r)
    → count b'%' t ≡ 0
    → Settles s t r
at_next s s' t rest (bindings b) h k z =
    let (moved, positional, required, z') = h z in
    let (moved', positional', required') = k z' in
    (moved' ∙ moved, positional' ∙ positional, required' ∙ required)
at_next s s' t rest (missing n) h k z = k (h z).3
at_next s s' t rest out_of_fuel h k z = k (h z).3

scan-Settles :
    (names : Option (List Text)) (s : Scan) (t : Text)
    → count b'%' t ≡ 0
    → Settles s t (scan names s t)
scan-Settles names =
    scan_rule names (λ s t o. count b'%' t ≡ 0 → Moves s t o)
      (λ s t r. count b'%' t ≡ 0 → Settles s t r) (λ s c rest. step_in-Moves s.state names s c rest)
      (λ s z. (sym (append-nil s.converted), refl, refl)) at_next (λ s s' t h z. absurd (h z))
      (λ s t n h z. absurd (h z))

-- A conversion that returned the query as it was, with no placeholder.
pub record IsUnchanged (query : Text) (r : Converted) : Type 0 where
  pub result : QueryBindings
  pub returned : r ≡ bindings result
  pub same : result.query ≡ query
  pub no_count : result.positional_count ≡ 0
  pub no_names : result.required_names ≡ []

Settles-IsUnchanged : (query : Text) (r : Converted) → Settles initial query r → IsUnchanged query r
Settles-IsUnchanged query (bindings b) h = record {
  result = b;
  returned = refl;
  same = h.0;
  no_count = h.1;
  no_names = h.2;
}
Settles-IsUnchanged query (missing n) h = absurd h
Settles-IsUnchanged query out_of_fuel h = absurd h

-- A query without a percent sign is returned as it is, whatever the parameters are, and with no
-- placeholder counted or required.
pub convert_placeholders-IsUnchanged :
    (names : Option (List Text)) (query : Text)
    → count b'%' query ≡ 0
    → IsUnchanged query (convert_placeholders query names)
convert_placeholders-IsUnchanged names query h =
    Settles-IsUnchanged query _ (rw convert_placeholders-scan (scan-Settles names initial query h))
