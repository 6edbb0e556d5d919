-- ===== src/Writes.antt =====
-- `_is_write_statement` of src/django_pyturso/base.py: the verb of a statement, also after common
-- table expressions, over the tokens of sqlparse's lexer.
pub mod Expressions
use django_pyturso.Prelude.{
  ℕ, zero, suc, Bool, true, false, ◌&&◌, ◌||◌, List, [], ◌∷◌, Text, codes, text_eq, contains,
  if◌then◌else◌, ◌==◌,
}

-- What the scan uses of sqlparse and of `str.upper`: a token's text, its text in upper case, and
-- whether its type is within `Whitespace` or `Comment`, `Punctuation`, `Keyword` and `Keyword.DML`.
pub record SqlLexer : Type 1 where
  pub Token : Type 0
  pub value : Token → Text
  pub upper : Token → Text
  pub is_blank : Token → Bool
  pub is_punctuation : Token → Bool
  pub is_keyword : Token → Bool
  pub is_dml : Token → Bool

pub data State : Type 0 where
  statement cte_header cte_body after_cte : State

-- The depth of parentheses, which a stray closing one takes below zero.
pub data ℤ : Type 0 where
  pos negsuc : ℕ → ℤ

abbrev pub increment : ℤ → ℤ
increment (pos n) = pos (suc n)
increment (negsuc zero) = pos 0
increment (negsuc (suc n)) = negsuc n

abbrev pub decrement : ℤ → ℤ
decrement (pos zero) = negsuc 0
decrement (pos (suc n)) = pos n
decrement (negsuc n) = negsuc (suc n)

abbrev pub is_zero : ℤ → Bool
is_zero (pos zero) = true
is_zero (pos (suc _)) = false
is_zero (negsuc _) = false

abbrev pub is_body : State → Bool
is_body cte_body = true
is_body _ = false

pub data Outcome : Type 0 where
  answer : Bool → Outcome
  next : State → ℤ → Outcome

abbrev pub write_verbs : List Text
write_verbs = codes "INSERT" ∷ codes "UPDATE" ∷ codes "DELETE" ∷ codes "REPLACE" ∷ []

module _ (lexer : SqlLexer) where
  open lexer use {Token, value, upper, is_blank, is_punctuation, is_keyword, is_dml}

  abbrev pub is_mark : Text → Token → Bool
  is_mark mark t = is_punctuation t && text_eq (value t) mark

  abbrev pub is_word : Text → Token → Bool
  is_word word t = is_keyword t && text_eq (upper t) word

  abbrev pub is_write_verb : Token → Bool
  is_write_verb t = is_dml t && contains (upper t) write_verbs

  -- `state == "statement"`
  abbrev pub begin_statement : Token → ℤ → Outcome
  begin_statement t depth =
      if text_eq (value t) (codes ";")
      then next statement depth
      else if is_word (codes "WITH") t
      then next cte_header depth
      else answer (is_write_verb t)

  -- The depth, and the end of a common table expression.
  abbrev pub count_parenthesis : State → Token → ℤ → Outcome
  count_parenthesis state t depth =
      if is_mark (codes "(") t
      then next state (increment depth)
      else if is_mark (codes ")") t
      then (if is_body state && is_zero (decrement depth)
          then next after_cte (decrement depth)
          else next state (decrement depth))
      else next state depth

  abbrev pub read_header : Token → ℤ → Outcome
  read_header t depth =
      if is_zero depth && is_word (codes "AS") t
      then count_parenthesis cte_body t depth
      else count_parenthesis cte_header t depth

  abbrev pub step_state : State → Token → ℤ → Outcome
  step_state statement t depth = begin_statement t depth
  step_state after_cte t depth =
      if is_mark (codes ",") t then next cte_header depth else begin_statement t depth
  step_state cte_header t depth = read_header t depth
  step_state cte_body t depth = count_parenthesis cte_body t depth

  -- A round of the loop. Blanks and comments change nothing.
  unfoldable pub step : State → Token → ℤ → Outcome
  unfolding text_eq contains
  step state t depth = if is_blank t then next state depth else step_state state t depth

  -- The loop from a state and a depth.
  unfoldable pub scan : List Token → State → ℤ → Bool
  unfolding step
  scan [] state depth = false
  scan (t ∷ ts) state depth = elim (step state t depth) [
    | answer result ↦ result
    | next state' depth' ↦ scan ts state' depth'
  ]

  unfoldable pub is_write_statement : List Token → Bool
  unfolding scan
  is_write_statement ts = scan ts statement (pos 0)
