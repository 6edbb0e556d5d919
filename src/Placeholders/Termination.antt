-- ===== src/Placeholders/Termination.antt =====
-- The loop of `_convert_placeholders` ends: every round shortens the text that is left.
use django_pyturso.Prelude.{
  ℕ, zero, suc, ◌<◌, ◌≤◌, ◌≡◌, refl, Option, none, some, List, [], ◌∷◌, Text, length, arith,
}
use django_pyturso.Placeholders.{
  State, sql, Scan, Outcome, next, stop, key_error, scan_name, step_line_comment,
  step_block_comment, step_identifier, step_literal, step_named, step_percent, step_sql, step_in,
  step, Converted, run, finish, resume, missing, convert_placeholders, initial,
}

-- A round that goes on leaves at most `n` characters.
abbrev pub Leaves : ℕ → Outcome → Type 0
Leaves n (next _ rest) = length rest ≤ n
Leaves n (stop _) = Unit
Leaves n (key_error _) = Unit

Leaves-le : (m n : ℕ) (o : Outcome) → Leaves m o → m ≤ n → Leaves n o
Leaves-le m n (next s rest) h k = omega arith
Leaves-le m n (stop s) h k = tt
Leaves-le m n (key_error name) h k = tt

length-scan_name : (t : Text) → length (scan_name t).1 ≤ length t
unfolding scan_name
length-scan_name [] = omega arith
length-scan_name (c ∷ rest) = ground (arith, length-scan_name rest)

step_named-Leaves :
    (names : List Text) (s : Scan) (name after : Text)
    → Leaves (length after) (step_named names s name after)
unfolding step_named
step_named-Leaves names s name [] = tt
step_named-Leaves names s name (c ∷ []) = ground arith
step_named-Leaves names s name (c ∷ d ∷ after) = ground arith

step_percent-Leaves :
    (names : Option (List Text)) (s : Scan) (c : ℕ) (rest : Text)
    → Leaves (length rest) (step_percent names s c rest)
unfolding step_percent
step_percent-Leaves none s c [] = ground arith
step_percent-Leaves none s c (d ∷ rest) = ground arith
step_percent-Leaves (some names) s c [] = ground arith
step_percent-Leaves (some names) s c (d ∷ rest) =
    let (name, after) = scan_name rest in
    ground (
      arith,
      Leaves-le (length after) (suc (length rest)) (step_named names s name after),
      step_named-Leaves names s name after,
      length-scan_name rest,
    )

step_in-Leaves :
    (state : State) (names : Option (List Text)) (s : Scan) (c : ℕ) (rest : Text)
    → Leaves (length rest) (step_in state names s c rest)
unfolding step_in step_line_comment step_block_comment step_identifier step_literal step_sql
step_in-Leaves sql names s c [] = ground (arith, step_percent-Leaves names s c [])
step_in-Leaves sql names s c (d ∷ rest) = ground (arith, step_percent-Leaves names s c (d ∷ rest))
step_in-Leaves state names s c [] = ground arith
step_in-Leaves state names s c (d ∷ rest) = ground arith

resume-eq :
    (n : ℕ) (k l : Scan → Text → Converted)
    → ((s : Scan) (rest : Text) → length rest ≤ n → k s rest ≡ l s rest)
    → (o : Outcome) → Leaves n o
    → resume k o ≡ resume l o
resume-eq n k l h (next s rest) b = h s rest b
resume-eq n k l h (stop s) b = refl
resume-eq n k l h (key_error name) b = refl

-- Two amounts of fuel that are both enough give the same result.
pub run_fuel :
    (f g : ℕ) (names : Option (List Text)) (s : Scan) (rest : Text)
    → length rest < f
    → length rest < g
    → run f names s rest ≡ run g names s rest
unfolding run
run_fuel zero g names s rest p q = absurd (omega arith)
run_fuel (suc f) zero names s rest p q = absurd (omega arith)
run_fuel (suc f) (suc g) names s [] p q = refl
run_fuel (suc f) (suc g) names s (c ∷ rest) p q =
    resume-eq (length rest) (run f names) (run g names)
      (λ s' rest' b. run_fuel f g names s' rest' (omega arith) (omega arith)) (step names s c rest)
      (step_in-Leaves s.state names s c rest)

-- The loop from a given state, with fuel that is enough.
unfoldable pub scan : Option (List Text) → Scan → Text → Converted
scan names s rest = run (suc (length rest)) names s rest

-- `scan` obeys the loop's equation, with no fuel in sight.
pub scan-cons :
    (names : Option (List Text)) (s : Scan) (c : ℕ) (rest : Text)
    → scan names s (c ∷ rest) ≡ resume (scan names) (step names s c rest)
unfolding scan run
scan-cons names s c rest =
    resume-eq (length rest) (run (suc (length rest)) names) (scan names)
      (λ s' rest' b.
        run_fuel (suc (length rest)) (suc (length rest')) names s' rest' (omega arith)
          (omega arith))
      (step names s c rest) (step_in-Leaves s.state names s c rest)

pub scan-nil : (names : Option (List Text)) (s : Scan) → scan names s [] ≡ finish s
unfolding scan run
scan-nil names s = refl

-- An induction on the length of the text that is left, one round of the loop at a time.
module _ {ℓ} (names : Option (List Text)) (P : Scan → Text → Converted → Type ℓ)
    (at_end : (s : Scan) → P s [] (finish s))
    (at_round : (s : Scan) (c : ℕ) (rest : Text)
      → ((s' : Scan) (rest' : Text) → length rest' ≤ length rest → P s' rest' (scan names s' rest'))
      → P s (c ∷ rest) (resume (scan names) (step names s c rest))) where
  scan_below : (n : ℕ) (s : Scan) (rest : Text) → length rest < n → P s rest (scan names s rest)
  scan_below zero s rest h = absurd (omega arith)
  scan_below (suc n) s [] h = rw scan-nil (at_end s)
  scan_below (suc n) s (c ∷ rest) h =
      rw scan-cons (at_round s c rest (λ s' rest' b. scan_below n s' rest' (omega arith)))

  pub scan_induction : (s : Scan) (rest : Text) → P s rest (scan names s rest)
  scan_induction s rest = scan_below (suc (length rest)) s rest (omega arith)

-- The same with the work done round by round: `Q` is what one round does, `P` what the loop does.
module _ {ℓ κ} (names : Option (List Text)) (Q : Scan → Text → Outcome → Type κ)
    (P : Scan → Text → Converted → Type ℓ)
    (at_step : (s : Scan) (c : ℕ) (rest : Text) → Q s (c ∷ rest) (step names s c rest))
    (at_end : (s : Scan) → P s [] (finish s))
    (at_next : (s s' : Scan) (t rest : Text) (r : Converted)
      → Q s t (next s' rest)
      → P s' rest r
      → P s t r)
    (at_stop : (s s' : Scan) (t : Text) → Q s t (stop s') → P s t (finish s'))
    (at_error : (s : Scan) (t name : Text) → Q s t (key_error name) → P s t (missing name)) where
  pub scan_rule : (s : Scan) (t : Text) → P s t (scan names s t)
  scan_rule = scan_induction names P at_end round
    where
      split :
          (s : Scan) (c : ℕ) (rest : Text)
          → ((s' : Scan) (rest' : Text)
              → length rest' ≤ length rest
              → P s' rest' (scan names s' rest'))
          → (o : Outcome) → Leaves (length rest) o
          → Q s (c ∷ rest) o
          → P s (c ∷ rest) (resume (scan names) o)
      split s c rest ih (next s' rest') l q =
          at_next s s' (c ∷ rest) rest' (scan names s' rest') q (ih s' rest' l)
      split s c rest ih (stop s') l q = at_stop s s' (c ∷ rest) q
      split s c rest ih (key_error name) l q = at_error s (c ∷ rest) name q

      round :
          (s : Scan) (c : ℕ) (rest : Text)
          → ((s' : Scan) (rest' : Text)
              → length rest' ≤ length rest
              → P s' rest' (scan names s' rest'))
          → P s (c ∷ rest) (resume (scan names) (step names s c rest))
      round s c rest ih =
          split s c rest ih (step names s c rest) (step_in-Leaves s.state names s c rest)
            (at_step s c rest)

pub convert_placeholders-scan :
    (query : Text) (names : Option (List Text))
    → convert_placeholders query names ≡ scan names initial query
unfolding convert_placeholders scan
convert_placeholders-scan query names = refl
