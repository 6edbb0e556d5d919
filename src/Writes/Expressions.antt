-- ===== src/Writes/Expressions.antt =====
-- The scan skips the body of a common table expression, whatever statements it has inside.
use django_pyturso.Prelude.{
  ℕ, zero, suc, ◌≡◌, refl, Bool, true, false, not, ◌&&◌, List, [], ◌∷◌, ◌++◌, codes, text_eq, All,
  if◌then◌else◌, arith, Bool-cases, inl, inr, ◌∙◌,
}
use django_pyturso.Writes.{
  SqlLexer, State, statement, after_cte, next, ℤ, cte_body, cte_header, pos, step, scan,
  is_write_statement, is_mark, is_word, is_write_verb,
}

module _ (lexer : SqlLexer) where
  open lexer use {Token, value, is_blank, is_keyword, is_punctuation}

  -- The parentheses of the tokens match, `k` of them being open before the first token.
  abbrev pub matches : ℕ → List Token → Bool
  matches zero [] = true
  matches (suc k) [] = false
  matches zero (t ∷ ts) =
      let inside = matches 1 ts in
      let same = matches 0 ts in
      if is_blank t
      then same
      else if is_mark lexer (codes "(") t
      then inside
      else not (is_mark lexer (codes ")") t) && same
  matches (suc k) (t ∷ ts) =
      let inside = matches (suc (suc k)) ts in
      let outside = matches k ts in
      let same = matches (suc k) ts in
      if is_blank t
      then same
      else if is_mark lexer (codes "(") t
      then inside
      else if is_mark lexer (codes ")") t
      then outside
      else same

  -- Within a body, one parenthesis deeper than the tokens' own.
  scan-body :
      (k : ℕ) (body rest : List Token)
      → matches k body ≡ true
      → scan lexer (body ++ rest) cte_body (pos (suc k)) ≡ scan lexer rest cte_body (pos 1)
  unfolding scan step
  scan-body zero [] rest h = refl
  scan-body (suc k) [] rest h = ground arith
  scan-body zero (t ∷ ts) rest h = elim (Bool-cases (is_blank t)) [
    | inl b ↦ ground (arith, b, h, scan-body 0 ts rest)
    | inr b ↦ elim (Bool-cases (is_mark lexer (codes "(") t)) [
      | inl o ↦ ground (arith, b, o, h, scan-body 1 ts rest)
      | inr o ↦ ground (arith, b, o, h, scan-body 0 ts rest)
    ]
  ]
  scan-body (suc k) (t ∷ ts) rest h = elim (Bool-cases (is_blank t)) [
    | inl b ↦ ground (arith, b, h, scan-body (suc k) ts rest)
    | inr b ↦ elim (Bool-cases (is_mark lexer (codes "(") t)) [
      | inl o ↦ ground (arith, b, o, h, scan-body (suc (suc k)) ts rest)
      | inr o ↦ elim (Bool-cases (is_mark lexer (codes ")") t)) [
        | inl c ↦ ground (arith, b, o, c, h, scan-body k ts rest)
        | inr c ↦ ground (arith, b, o, c, h, scan-body (suc k) ts rest)
      ]
    ]
  ]

  -- The tokens of a statement with one common table expression, by the tests that the scan makes.
  abbrev pub is_with : Token → Bool
  is_with t =
      not (is_blank t) && not (text_eq (value t) (codes ";")) && is_word lexer (codes "WITH") t

  abbrev pub is_plain_name : Token → Bool
  is_plain_name t =
      not (is_blank t)
      && not (is_mark lexer (codes "(") t)
      && not (is_mark lexer (codes ")") t)
      && not (is_word lexer (codes "AS") t)

  abbrev pub is_as : Token → Bool
  is_as t = not (is_blank t) && not (is_punctuation t) && is_word lexer (codes "AS") t

  abbrev pub is_opening : Token → Bool
  is_opening t = not (is_blank t) && is_mark lexer (codes "(") t

  abbrev pub is_closing : Token → Bool
  is_closing t =
      not (is_blank t) && not (is_mark lexer (codes "(") t) && is_mark lexer (codes ")") t

  abbrev pub is_verb : Token → Bool
  is_verb t =
      not (is_blank t)
      && not (is_mark lexer (codes ",") t)
      && not (text_eq (value t) (codes ";"))
      && not (is_word lexer (codes "WITH") t)

  -- Blanks and comments, which may stand between any two tokens.
  abbrev pub are_blank : List Token → Bool
  are_blank [] = true
  are_blank (t ∷ ts) = is_blank t && are_blank ts

  scan-are_blank :
      (gap rest : List Token) (state : State) (depth : ℤ)
      → are_blank gap ≡ true
      → scan lexer (gap ++ rest) state depth ≡ scan lexer rest state depth
  unfolding scan step
  scan-are_blank [] rest state depth h = refl
  scan-are_blank (t ∷ gap) rest state depth h =
      ground (arith, h, scan-are_blank gap rest state depth)

  -- A token and the blanks behind it, where the token alone takes the scan to a state and a depth.
  scan-goes :
      (t : Token) (gap rest : List Token) (state state' : State) (depth depth' : ℤ)
      → step lexer state t depth ≡ next state' depth'
      → are_blank gap ≡ true
      → scan lexer (t ∷ (gap ++ rest)) state depth ≡ scan lexer rest state' depth'
  unfolding scan
  scan-goes t gap rest state state' depth depth' e h =
      rw (scan, e) (scan-are_blank gap rest state' depth' h)

  step-is_with :
      (t : Token) → is_with t ≡ true → step lexer statement t (pos 0) ≡ next cte_header (pos 0)
  unfolding step
  step-is_with t h = ground arith

  step-is_plain_name :
      (t : Token)
      → is_plain_name t ≡ true
      → step lexer cte_header t (pos 0) ≡ next cte_header (pos 0)
  unfolding step
  step-is_plain_name t h = ground arith

  step-is_as :
      (t : Token) → is_as t ≡ true → step lexer cte_header t (pos 0) ≡ next cte_body (pos 0)
  unfolding step
  step-is_as t h = ground arith

  step-is_opening :
      (t : Token) → is_opening t ≡ true → step lexer cte_body t (pos 0) ≡ next cte_body (pos 1)
  unfolding step
  step-is_opening t h = ground arith

  step-is_closing :
      (t : Token) → is_closing t ≡ true → step lexer cte_body t (pos 1) ≡ next after_cte (pos 0)
  unfolding step
  step-is_closing t h = ground arith

  scan-is_verb :
      (v : Token) (more : List Token)
      → is_verb v ≡ true
      → scan lexer (v ∷ more) after_cte (pos 0) ≡ is_write_verb lexer v
  unfolding scan step
  scan-is_verb v more h = ground arith

  -- A statement `WITH name AS (body) verb …`, with any blanks and comments before it and between its
  -- tokens, any body whose parentheses match and anything after the verb, is a write exactly if that
  -- verb is one of the four that write. Verbs inside the body do not count.
  pub is_write_statement_cte :
      (gap0 : List Token) (w : Token) (gap1 : List Token) (n : Token) (gap2 : List Token)
      (a : Token) (gap3 : List Token) (o : Token) (body : List Token) (c : Token)
      (gap4 : List Token) (v : Token) (more : List Token)
      → All (λ gap. are_blank gap ≡ true) (gap0 ∷ gap1 ∷ gap2 ∷ gap3 ∷ gap4 ∷ [])
      → is_with w ≡ true
      → is_plain_name n ≡ true
      → is_as a ≡ true
      → is_opening o ≡ true
      → matches 0 body ≡ true
      → is_closing c ≡ true
      → is_verb v ≡ true
      → is_write_statement lexer (
          gap0
          ++ (w
              ∷ (gap1
                  ++ (n ∷ (gap2 ++ (a ∷ (gap3 ++ (o ∷ (body ++ (c ∷ (gap4 ++ (v ∷ more))))))))))))
        ≡ is_write_verb lexer v
  unfolding is_write_statement
  is_write_statement_cte gap0 w gap1 n gap2 a gap3 o body c gap4 v more h hw hn ha ho hb hc hv =
      let verb = v ∷ more in
      let inner = body ++ (c ∷ (gap4 ++ verb)) in
      let named = a ∷ (gap3 ++ (o ∷ inner)) in
      let header = n ∷ (gap2 ++ named) in
      scan-are_blank gap0 (w ∷ (gap1 ++ header)) statement (pos 0) h.0
      ∙ scan-goes w gap1 header statement cte_header (pos 0) (pos 0) (step-is_with w hw) h.1.0
      ∙ scan-goes n gap2 named cte_header cte_header (pos 0) (pos 0) (step-is_plain_name n hn)
          h.1.1.0
      ∙ scan-goes a gap3 (o ∷ inner) cte_header cte_body (pos 0) (pos 0) (step-is_as a ha) h.1.1.1.0
      ∙ scan-goes o [] inner cte_body cte_body (pos 0) (pos 1) (step-is_opening o ho) refl
      ∙ scan-body 0 body (c ∷ (gap4 ++ verb)) hb
      ∙ scan-goes c gap4 verb cte_body after_cte (pos 1) (pos 0) (step-is_closing c hc) h.1.1.1.1.0
      ∙ scan-is_verb v more hv
