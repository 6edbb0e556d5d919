-- ===== src/Temporal/Rounds.antt =====
-- How `_convert_placeholders` reads constant pieces of SQL, round by round.
use django_pyturso.Placeholders.Termination.{scan, scan-cons}
use django_pyturso.Placeholders.{
  State, sql, literal, Scan, next, step, step_in, step_sql, step_literal, step_percent,
  identifier_quotes, resume,
}
use django_pyturso.Prelude.{
  ℕ, ◌+◌, ◌≡◌, refl, ap, ◌∙◌, Bool, true, false, not, ◌&&◌, ◌||◌, none, [], ◌∷◌, ◌++◌, Text,
  follows, ◌==◌, if◌then◌else◌, arith, Bool-cases, inl, inr, codes, sym,
}

-- Characters that the scanner reads in a special way in plain SQL.
abbrev pub is_special : ℕ → Bool
is_special c =
    (c == b'\'')
    || (c == b'"')
    || (c == b'`')
    || (c == b'[')
    || (c == b'%')
    || (c == b'?')
    || (c == b':')
    || (c == b'@')
    || (c == b'$')
    || (c == b'-')
    || (c == b'/')

abbrev pub is_nonempty : Text → Bool
is_nonempty [] = false
is_nonempty (_ ∷ _) = true

-- A minus or a division, by the character after it.
abbrev pub is_operator : ℕ → Text → Bool
is_operator c t =
    is_nonempty t
    && (((c == b'-') && not (follows b'-' t)) || ((c == b'/') && not (follows b'*' t)))

-- A text that passes from plain SQL, or with `true` from within a literal, to plain SQL, with no
-- placeholder. Only if the first argument is true the last character may be a quote, which a later
-- one could pair with.
unfoldable pub passes : Bool → Bool → Text → Bool
passes last false [] = true
passes last true [] = false
passes last false (c ∷ t) =
    let inside = passes last true t in
    let after = passes last false t in
    if c == b'\'' then inside else (not (is_special c) || is_operator c t) && after
passes last true (c ∷ []) = last && (c == b'\'')
passes last true (c ∷ d ∷ t) =
    let outside = passes last false (d ∷ t) in
    let pair = passes last true t in
    let after = passes last true (d ∷ t) in
    if c == b'\''
    then not (d == b'\'') && outside
    else if c == b'%'
    then (d == b'%') && pair
    else after

-- What follows a piece: nothing, or one of these characters.
abbrev pub is_boundary : Text → Bool
is_boundary [] = true
is_boundary (c ∷ t) = (c == b')') || (c == b',') || (c == b' ')

-- A scan in plain SQL that has counted `n` placeholders more and is the same otherwise, but for its
-- output and the quote of the last name.
abbrev pub Advances : ℕ → Scan → Scan → Type 0
Advances n s s' =
    (s'.state ≡ sql)
    × (s'.positional_count ≡ s.positional_count + n)
    × (s'.required_names ≡ s.required_names)
    × (s'.native_bindings ≡ s.native_bindings)

-- The scan of `t` and what follows it goes on behind `t`, with `n` placeholders.
abbrev pub Crosses : ℕ → Text → Text → Type 0
Crosses n t rest =
    (s : Scan)
    → s.state ≡ sql
    → (s' : Scan) × (scan none s (t ++ rest) ≡ scan none s' rest) × Advances n s s'

-- A piece with `n` positional placeholders, wherever a boundary follows.
abbrev pub IsFragment : ℕ → Text → Type 0
IsFragment n t = (rest : Text) → is_boundary rest ≡ true → Crosses n t rest

pub round :
    (s s' : Scan) (c : ℕ) (rest rest' : Text)
    → step none s c rest ≡ next s' rest'
    → scan none s (c ∷ rest) ≡ scan none s' rest'
round s s' c rest rest' h = scan-cons none s c rest ∙ ap (resume (scan none)) h

-- The state within a literal or in plain SQL.
abbrev pub mode : Bool → State
mode true = literal
mode false = sql

step_plain :
    (c : ℕ) (rest : Text) (s : Scan)
    → s.state ≡ sql
    → is_special c ≡ false
    → step none s c rest ≡ next (record s { converted = s.converted ++ c ∷ [] }) rest
unfolding step_in step_sql step_percent identifier_quotes
step_plain c rest s h k = ground arith

step_operator :
    (c : ℕ) (t rest : Text) (s : Scan)
    → s.state ≡ sql
    → is_operator c t ≡ true
    → step none s c (t ++ rest) ≡ next (record s { converted = s.converted ++ c ∷ [] }) (t ++ rest)
unfolding step_in step_sql step_percent identifier_quotes
step_operator c [] rest s h k = ground arith
step_operator c (d ∷ t) rest s h k = ground arith

step_open :
    (c : ℕ) (rest : Text) (s : Scan)
    → s.state ≡ sql
    → (c == b'\'') ≡ true
    → step none s c rest
      ≡ next (record s { converted = s.converted ++ c ∷ []; state = literal }) rest
unfolding step_in step_sql
step_open c rest s h k = ground arith

step_inside :
    (c d : ℕ) (rest : Text) (s : Scan)
    → s.state ≡ literal
    → (c == b'\'') ≡ false
    → (c == b'%') ≡ false
    → step none s c (d ∷ rest) ≡ next (record s { converted = s.converted ++ c ∷ [] }) (d ∷ rest)
unfolding step_in step_literal
step_inside c d rest s h k l = ground arith

step_close :
    (c d : ℕ) (rest : Text) (s : Scan)
    → s.state ≡ literal
    → (c == b'\'') ≡ true
    → (d == b'\'') ≡ false
    → step none s c (d ∷ rest)
      ≡ next (record s { converted = s.converted ++ c ∷ []; state = sql }) (d ∷ rest)
unfolding step_in step_literal
step_close c d rest s h k l = ground arith

step_pair :
    (c d : ℕ) (rest : Text) (s : Scan)
    → s.state ≡ literal
    → (c == b'%') ≡ true
    → (d == b'%') ≡ true
    → step none s c (d ∷ rest) ≡ next (record s { converted = s.converted ++ codes "%" }) rest
unfolding step_in step_literal
step_pair c d rest s h k l = ground arith

-- The scan of `t` from `s` goes on behind it in plain SQL with nothing counted.
abbrev pub Passed : Text → Text → Scan → Type 0
Passed t rest s = (s' : Scan) × (scan none s (t ++ rest) ≡ scan none s' rest) × Advances 0 s s'

after_round :
    (s s' : Scan) (c : ℕ) (t t' rest : Text)
    → step none s c (t ++ rest) ≡ next s' (t' ++ rest)
    → s.positional_count ≡ s'.positional_count
    → s.required_names ≡ s'.required_names
    → s.native_bindings ≡ s'.native_bindings
    → Passed t' rest s'
    → Passed (c ∷ t) rest s
after_round s s' c t t' rest h p r n (s2, e, (a, b, k, l)) = (
  s2,
  round s s' c (t ++ rest) (t' ++ rest) h ∙ e,
  (a, b ∙ ap (λ m. m + 0) (sym p), k ∙ sym r, l ∙ sym n),
)

step_last :
    (c : ℕ) (rest : Text) (s : Scan)
    → s.state ≡ literal
    → (c == b'\'') ≡ true
    → follows b'\'' rest ≡ false
    → step none s c rest ≡ next (record s { converted = s.converted ++ c ∷ []; state = sql }) rest
unfolding step_in step_literal
step_last c [] s k q f = ground arith
step_last c (d ∷ rest) s k q f = ground arith

pub passes-Passed :
    (last b : Bool) (t rest : Text) (s : Scan)
    → (last ≡ true → follows b'\'' rest ≡ false)
    → passes last b t ≡ true
    → s.state ≡ mode b
    → Passed t rest s
unfolding passes
passes-Passed last false [] rest s z h k = (s, refl, (k, omega arith, refl, refl))
passes-Passed last true [] rest s z h k = ground arith
passes-Passed last false (c ∷ t) rest s z h k = elim (Bool-cases (c == b'\'')) [
  | inl quote ↦
      after_round s _ c t t rest (step_open c (t ++ rest) s k quote) refl refl refl
        (passes-Passed last true t rest _ z (ground (arith, quote)) refl)
  | inr other ↦ elim (Bool-cases (is_special c)) [
    | inr plain ↦
        after_round s _ c t t rest (step_plain c (t ++ rest) s k plain) refl refl refl
          (passes-Passed last false t rest _ z (ground (arith, other)) k)
    | inl special ↦
        after_round s _ c t t rest (step_operator c t rest s k (ground (arith, other, special)))
          refl refl refl (passes-Passed last false t rest _ z (ground (arith, other)) k)
  ]
]
passes-Passed last true (c ∷ []) rest s z h k = (
  _,
  round s _ c rest rest (step_last c rest s k (ground (arith, h)) (z (ground (arith, h)))),
  (refl, omega arith, refl, refl),
)
passes-Passed last true (c ∷ d ∷ t) rest s z h k = elim (Bool-cases (c == b'\'')) [
  | inl quote ↦
      after_round s _ c (d ∷ t) (d ∷ t) rest
        (step_close c d (t ++ rest) s k quote (ground (arith, quote))) refl refl refl
        (passes-Passed last false (d ∷ t) rest _ z (ground (arith, quote)) refl)
  | inr other ↦ elim (Bool-cases (c == b'%')) [
    | inl percent ↦
        after_round s _ c (d ∷ t) t rest
          (step_pair c d (t ++ rest) s k percent (ground (arith, other, percent))) refl refl refl
          (passes-Passed last true t rest _ z (ground (arith, other, percent)) k)
    | inr plain ↦
        after_round s _ c (d ∷ t) (d ∷ t) rest (step_inside c d (t ++ rest) s k other plain) refl
          refl refl (passes-Passed last true (d ∷ t) rest _ z (ground (arith, other, plain)) k)
  ]
]
