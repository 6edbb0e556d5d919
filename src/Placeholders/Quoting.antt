-- ===== src/Placeholders/Quoting.antt =====
-- How `_convert_placeholders` passes over quoted names and text literals.
use django_pyturso.Identifiers.{double, undouble, is_quoted, quote_name, quote_text}
use django_pyturso.Placeholders.Termination.{scan, scan-cons}
use django_pyturso.Prelude.{
  ℕ, ◌≡◌, ap, ◌∙◌, false, Option, List, [], ◌∷◌, ◌++◌, ◌&&◌, Text, follows, append_assoc,
  Bool-cases, arith, ◌==◌, inl, inr,
}
use django_pyturso.Placeholders.{
  State, sql, identifier, literal, Scan, next, step_identifier, step_literal, step_sql, step_in,
  step, identifier_quotes, resume, true,
}

-- The scan with this output so far, in this state.
abbrev pub reading : Scan → Text → State → Scan
reading s out state = record s { converted = out; state = state }

-- The scan in or behind a name in double quotes.
abbrev pub quoting : Scan → Scan
quoting s = record s { closing_quote = b'"' }

double-cons : (q c : ℕ) (t : Text) → double q (c ∷ t) ≡ double q (c ∷ []) ++ double q t
unfolding double
double-cons q c t = ground arith

undouble_pair :
    (q c d : ℕ) (t : Text)
    → ((c == q) && (d == q)) ≡ true
    → undouble q (c ∷ d ∷ t) ≡ q ∷ undouble q t
unfolding undouble
undouble_pair q c d t h = ground arith

undouble_single :
    (q c d : ℕ) (t : Text)
    → ((c == q) && (d == q)) ≡ false
    → undouble q (c ∷ d ∷ t) ≡ c ∷ undouble q (d ∷ t)
unfolding undouble
undouble_single q c d t h = ground arith

head-double : (d : ℕ) (value t : Text) → follows b'%' (double b'\'' (d ∷ value) ++ t) ≡ (d == b'%')
unfolding double
head-double d value t = ground arith

module _ (names : Option (List Text)) (s : Scan) where
  round :
      (s s' : Scan) (c : ℕ) (rest rest' : Text)
      → step names s c rest ≡ next s' rest'
      → scan names s (c ∷ rest) ≡ scan names s' rest'
  round s s' c rest rest' h = scan-cons names s c rest ∙ ap (resume (scan names)) h

  -- Inside a quoted name, up to its closing quote.
  scan_identifier :
      (name rest out : Text)
      → follows b'"' rest ≡ false
      → scan names (reading (quoting s) out identifier) (double b'"' name ++ b'"' ∷ rest)
        ≡ scan names (reading (quoting s) (out ++ (double b'"' name ++ b'"' ∷ [])) sql) rest
  unfolding double step_in step_identifier
  scan_identifier [] rest out h =
      round (reading (quoting s) out identifier) (reading (quoting s) (out ++ b'"' ∷ []) sql) b'"'
        rest rest (ground arith)
  scan_identifier (c ∷ name) rest out h = elim (Bool-cases (c == b'"')) [
    | inl quote ↦ rw quote (
        round (reading (quoting s) out identifier)
          (reading (quoting s) (out ++ b'"' ∷ b'"' ∷ []) identifier) b'"'
          (b'"' ∷ (double b'"' name ++ b'"' ∷ rest)) (double b'"' name ++ b'"' ∷ rest)
          (ground arith)
        ∙ scan_identifier name rest (out ++ b'"' ∷ b'"' ∷ []) h
        ∙ rw append_assoc)
    | inr other ↦ rw other (
        round (reading (quoting s) out identifier) (reading (quoting s) (out ++ c ∷ []) identifier)
          c (double b'"' name ++ b'"' ∷ rest) (double b'"' name ++ b'"' ∷ rest) (ground arith)
        ∙ scan_identifier name rest (out ++ c ∷ []) h
        ∙ rw append_assoc)
  ]

  -- One character of a text literal that does not begin a pair of percent signs.
  scan_character :
      (c : ℕ) (value rest out : Text)
      → ((c == b'%') && follows b'%' (double b'\'' value ++ b'\'' ∷ rest)) ≡ false
      → scan names (reading s out literal) (double b'\'' (c ∷ value) ++ b'\'' ∷ rest)
        ≡ scan names
            (reading s (out ++ double b'\'' (c ∷ [])) literal)
            (double b'\'' value ++ b'\'' ∷ rest)
  unfolding double step_in step_literal
  scan_character c value rest out h = elim (Bool-cases (c == b'\'')) [
    | inl quote ↦ rw quote (
        round (reading s out literal) (reading s (out ++ b'\'' ∷ b'\'' ∷ []) literal) b'\''
          (b'\'' ∷ (double b'\'' value ++ b'\'' ∷ rest)) (double b'\'' value ++ b'\'' ∷ rest)
          (ground arith))
    | inr other ↦ rw other (
        round (reading s out literal) (reading s (out ++ c ∷ []) literal) c
          (double b'\'' value ++ b'\'' ∷ rest) (double b'\'' value ++ b'\'' ∷ rest) (ground arith))
  ]

  scan_pair :
      (value rest out : Text)
      → scan names (reading s out literal) (double b'\'' (b'%' ∷ b'%' ∷ value) ++ b'\'' ∷ rest)
        ≡ scan names (reading s (out ++ b'%' ∷ []) literal) (double b'\'' value ++ b'\'' ∷ rest)
  unfolding double step_in step_literal
  scan_pair value rest out =
      round (reading s out literal) (reading s (out ++ b'%' ∷ []) literal) b'%'
        (b'%' ∷ (double b'\'' value ++ b'\'' ∷ rest)) (double b'\'' value ++ b'\'' ∷ rest)
        (ground arith)

  -- The text that a literal becomes: its body with each pair of percent signs made one.
  abbrev pub collapsed : Text → Text
  collapsed value = double b'\'' (undouble b'%' value) ++ b'\'' ∷ []

  -- Inside a text literal, up to its closing quote.
  scan_literal :
      (value rest out : Text)
      → follows b'\'' rest ≡ false
      → scan names (reading s out literal) (double b'\'' value ++ b'\'' ∷ rest)
        ≡ scan names (reading s (out ++ collapsed value) sql) rest
  scan_literal [] rest out h =
      unfold double undouble step_in step_literal in
      round (reading s out literal) (reading s (out ++ b'\'' ∷ []) sql) b'\'' rest rest
        (ground arith)
  scan_literal (c ∷ []) rest out h =
      scan_character c [] rest out (unfold double in ground arith)
      ∙ scan_literal [] rest (out ++ double b'\'' (c ∷ [])) h
      ∙ ap (λ o. scan names (reading s o sql) rest)
          (simp (append_assoc) (unfold double undouble in ground arith))
  scan_literal (c ∷ d ∷ value) rest out h = elim (Bool-cases ((c == b'%') && (d == b'%'))) [
    | inl pair ↦
        let ec : c ≡ b'%' = ground arith in
        let ed : d ≡ b'%' = ground arith in
        rw (ec, ed)
          (scan_pair value rest out
            ∙ scan_literal value rest (out ++ b'%' ∷ []) h
            ∙ ap (λ o. scan names (reading s o sql) rest)
                (unfold double undouble in simp append_assoc))
    | inr single ↦
        scan_character c (d ∷ value) rest out rw head-double single
        ∙ scan_literal (d ∷ value) rest (out ++ double b'\'' (c ∷ [])) h
        ∙ ap (λ o. scan names (reading s o sql) rest)
            (rw
              (
                undouble_single b'%' c d value single,
                double-cons b'\'' c (undouble b'%' (d ∷ value)),
              )
              (simp append_assoc))
  ]

  -- In plain SQL a name that `quote_name` has quoted is copied as it is, whatever it holds, and the
  -- scan goes on behind it in plain SQL with its counters unchanged. The name has no quotes of its
  -- own, and no quote follows.
  pub scan-quote_name :
      (name rest : Text)
      → s.state ≡ sql
      → is_quoted b'"' b'"' name ≡ false
      → follows b'"' rest ≡ false
      → scan names s (quote_name name ++ rest)
        ≡ scan names (reading (quoting s) (s.converted ++ quote_name name) sql) rest
  unfolding quote_name
  scan-quote_name name rest plain bare h =
      rw (bare, append_assoc)
        (round s (reading (quoting s) (s.converted ++ b'"' ∷ []) identifier) b'"'
            (double b'"' name ++ b'"' ∷ rest) (double b'"' name ++ b'"' ∷ rest)
            (unfold step_in step_sql identifier_quotes in ground arith)
          ∙ scan_identifier name rest (s.converted ++ b'"' ∷ []) h
          ∙ rw append_assoc)

  -- In plain SQL a text that `quote_text` has quoted stays one text literal, in which each pair of
  -- percent signs has become one, and the scan goes on behind it in plain SQL with its counters
  -- unchanged. No quote follows the literal.
  pub scan-quote_text :
      (value rest : Text)
      → s.state ≡ sql
      → follows b'\'' rest ≡ false
      → scan names s (quote_text value ++ rest)
        ≡ scan names (reading s (s.converted ++ quote_text (undouble b'%' value)) sql) rest
  unfolding quote_text
  scan-quote_text value rest plain h = rw append_assoc (
      round s (reading s (s.converted ++ b'\'' ∷ []) literal) b'\''
        (double b'\'' value ++ b'\'' ∷ rest) (double b'\'' value ++ b'\'' ∷ rest)
        (unfold step_in step_sql in ground arith)
      ∙ scan_literal value rest (s.converted ++ b'\'' ∷ []) h
      ∙ ap (λ o. scan names (reading s o sql) rest)
          (append_assoc s.converted (b'\'' ∷ []) (collapsed value)))
