-- ===== src/Identifiers/RoundTrip.antt =====
-- Quoting and unquoting of names.
use django_pyturso.Identifiers.{
  ends_with, double, undouble, drop_last, is_quoted, quote_name, unquote_identifier, quote_text,
}
use django_pyturso.Prelude.{
  ℕ, ◌≡◌, refl, ap, ◌∙◌, true, false, [], ◌∷◌, ◌++◌, inl, inr, Text, Bool-cases, arith, ◌==◌,
}

undouble-cons_ne : (q c : ℕ) (t : Text) → (c == q) ≡ false → undouble q (c ∷ t) ≡ c ∷ undouble q t
unfolding undouble
undouble-cons_ne q c [] h = refl
undouble-cons_ne q c (d ∷ t) h = ground arith

undouble_pair : (q : ℕ) (t : Text) → undouble q (q ∷ q ∷ t) ≡ q ∷ undouble q t
unfolding undouble
undouble_pair q t = ground arith

undouble-double : (q : ℕ) (t : Text) → undouble q (double q t) ≡ t
unfolding double
undouble-double q [] = unfold undouble in refl
undouble-double q (c ∷ t) = elim (Bool-cases (c == q)) [
  | inl same ↦ rw same (undouble_pair q (double q t) ∙ ground (arith, undouble-double q t))
  | inr other ↦
      rw other (undouble-cons_ne q c (double q t) other ∙ ap (◌∷◌ c) (undouble-double q t))
]

drop_last-append : (t : Text) (c : ℕ) → drop_last (t ++ c ∷ []) ≡ t
unfolding drop_last
drop_last-append [] c = refl
drop_last-append (d ∷ []) c = refl
drop_last-append (d ∷ e ∷ t) c = ap (◌∷◌ d) (drop_last-append (e ∷ t) c)

ends_with-append : (q : ℕ) (t : Text) → ends_with q (t ++ q ∷ []) ≡ true
unfolding ends_with
ends_with-append q [] = ground arith
ends_with-append q (d ∷ []) = ground arith
ends_with-append q (d ∷ e ∷ t) = ends_with-append q (e ∷ t)

ends_with-cons : (q c : ℕ) (t : Text) → ends_with q t ≡ true → ends_with q (c ∷ t) ≡ true
unfolding ends_with
ends_with-cons q c [] h = cc
ends_with-cons q c (d ∷ t) h = h

is_quoted-quote : (q : ℕ) (t : Text) → is_quoted q q (q ∷ (t ++ q ∷ [])) ≡ true
is_quoted-quote q t = ground (arith, ends_with-cons q q (t ++ q ∷ []) (ends_with-append q t))

-- Unquoting gives back every name that `quote_name` has quoted, whatever quotes it holds inside.
-- The name has no quotes of its own round it.
pub unquote_identifier-quote_name :
    (name : Text) → is_quoted b'"' b'"' name ≡ false → unquote_identifier (quote_name name) ≡ name
unfolding quote_name unquote_identifier
unquote_identifier-quote_name name bare =
    rw (bare, is_quoted-quote b'"' (double b'"' name), drop_last-append) (undouble-double b'"' name)

-- A text in single quotes is unquoted to the value that `quote_text` has quoted.
unquote_identifier-quote_text : (value : Text) → unquote_identifier (quote_text value) ≡ value
unfolding quote_text unquote_identifier
unquote_identifier-quote_text value =
    rw (is_quoted-quote b'\'' (double b'\'' value), drop_last-append) (undouble-double b'\'' value)

-- Quoting a quoted name changes nothing, whatever the name is.
quote_name_idem : (name : Text) → quote_name (quote_name name) ≡ quote_name name
unfolding quote_name
quote_name_idem name = elim (Bool-cases (is_quoted b'"' b'"' name)) [
  | inl quoted ↦ rw (quoted, quoted)
  | inr bare ↦ rw (bare, is_quoted-quote b'"' (double b'"' name))
]
