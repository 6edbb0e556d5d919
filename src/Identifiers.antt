-- ===== src/Identifiers.antt =====
-- SQL names: `quote_name` of src/django_pyturso/operations.py, `_unquote_identifier` and
-- `_identifier_key` of src/django_pyturso/introspection.py.
pub mod RoundTrip
use django_pyturso.Prelude.{
  ℕ, ◌+◌, Bool, ◌&&◌, false, [], ◌∷◌, ◌++◌, map, Text, follows, drop, ◌==◌, leb, if◌then◌else◌,
}

-- `value.endswith(chr(code))`
unfoldable pub ends_with : ℕ → Text → Bool
ends_with q [] = false
ends_with q (c ∷ []) = c == q
ends_with q (c ∷ d ∷ t) = ends_with q (d ∷ t)

-- `value.replace(q, q + q)` for one character `q`.
unfoldable pub double : ℕ → Text → Text
double q [] = []
double q (c ∷ t) = if c == q then q ∷ q ∷ double q t else c ∷ double q t

-- `value.replace(q + q, q)`
unfoldable pub undouble : ℕ → Text → Text
undouble q [] = []
undouble q (c ∷ []) = c ∷ []
undouble q (c ∷ d ∷ t) =
    let pair = undouble q t in
    let single = undouble q (d ∷ t) in if (c == q) && (d == q) then q ∷ pair else c ∷ single

-- `value[1:-1]`
unfoldable pub drop_last : Text → Text
drop_last [] = []
drop_last (c ∷ []) = []
drop_last (c ∷ d ∷ t) = c ∷ drop_last (d ∷ t)

abbrev pub inner : Text → Text
inner t = drop_last (drop 1 t)

abbrev pub is_quoted : ℕ → ℕ → Text → Bool
is_quoted opening closing t = follows opening t && ends_with closing t

unfoldable pub quote_name : Text → Text
unfolding ends_with double
quote_name name = if is_quoted b'"' b'"' name then name else b'"' ∷ (double b'"' name ++ b'"' ∷ [])

unfoldable pub unquote_identifier : Text → Text
unfolding ends_with undouble drop_last
unquote_identifier value =
    if is_quoted b'"' b'"' value
    then undouble b'"' (inner value)
    else if is_quoted b'\'' b'\'' value
    then undouble b'\'' (inner value)
    else if is_quoted b'`' b'`' value
    then undouble b'`' (inner value)
    else if is_quoted b'[' b']' value
    then inner value
    else value

-- One character of `_IDENTIFIER_CASE`: ASCII letters to lower case.
unfoldable pub lower_ascii : ℕ → ℕ
lower_ascii c = if leb b'A' c && leb c b'Z' then c + 32 else c

unfoldable pub identifier_key : Text → Text
unfolding lower_ascii
identifier_key value = map lower_ascii value

-- `"'%s'" % value.replace("'", "''")`, in `quote_value` and in `sequence_reset_by_name_sql`.
unfoldable pub quote_text : Text → Text
unfolding double
quote_text value = b'\'' ∷ (double b'\'' value ++ b'\'' ∷ [])
