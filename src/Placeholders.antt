-- ===== src/Placeholders.antt =====
-- `_convert_placeholders` and `_QueryBindings` of src/django_pyturso/base.py. The loop over
-- `index` is a step on the text that is left, so that `query[index:]` is the argument and
-- `following` is its second item. A Python set of names is a list without repetition.
pub mod Termination
pub mod Positional
pub mod Named
pub mod Verbatim
pub mod Quoting
pub mod Params
use django_pyturso.Prelude.{
  ℕ, zero, suc, ◌+◌, Bool, true, false, not, ◌&&◌, ◌||◌, Option, none, some, List, [], ◌∷◌, ◌++◌,
  Text, codes, contains, follows, drop, length, ◌==◌, if◌then◌else◌,
}

pub data State : Type 0 where
  sql line_comment block_comment identifier literal : State

-- The local variables of the loop, without `index` and `names`.
pub record Scan : Type 0 where
  pub converted : Text
  pub positional_count : ℕ
  pub required_names : List Text
  pub native_bindings : Bool
  pub state : State
  pub closing_quote : ℕ

abbrev pub initial : Scan
initial = record {
  converted = [];
  positional_count = 0;
  required_names = [];
  native_bindings = false;
  state = sql;
  closing_quote = 0;
}

-- How a round of the loop ends: with the text left, by `break`, or by `raise KeyError(name)`.
pub data Outcome : Type 0 where
  next : Scan → Text → Outcome
  stop : Scan → Outcome
  key_error : Text → Outcome

abbrev pub emit : Scan → Text → Scan
emit s t = record s { converted = s.converted ++ t }

abbrev pub enter : Scan → State → Text → Scan
enter s state t = record s { converted = s.converted ++ t; state = state }

-- `state == "line-comment"`
unfoldable pub step_line_comment : Scan → ℕ → Text → Outcome
step_line_comment s c rest =
    if (c == 13) || (c == 10) then next (enter s sql (c ∷ [])) rest else next (emit s (c ∷ [])) rest

-- `state == "block-comment"`
unfoldable pub step_block_comment : Scan → ℕ → Text → Outcome
step_block_comment s c rest =
    if (c == b'*') && follows b'/' rest
    then next (enter s sql (codes "*/")) (drop 1 rest)
    else next (emit s (c ∷ [])) rest

-- `state == "identifier"`
unfoldable pub step_identifier : Scan → ℕ → Text → Outcome
step_identifier s c rest =
    if not (c == s.closing_quote)
    then next (emit s (c ∷ [])) rest
    else if not (s.closing_quote == b']') && follows s.closing_quote rest
    then next (emit s (c ∷ s.closing_quote ∷ [])) (drop 1 rest)
    else next (enter s sql (c ∷ [])) rest

-- `state == "literal"`
unfoldable pub step_literal : Scan → ℕ → Text → Outcome
step_literal s c rest =
    if (c == b'\'') && follows b'\'' rest
    then next (emit s (codes "''")) (drop 1 rest)
    else if c == b'\''
    then next (enter s sql (c ∷ [])) rest
    else if (c == b'%') && follows b'%' rest
    then next (emit s (codes "%")) (drop 1 rest)
    else next (emit s (c ∷ [])) rest

-- `_IDENTIFIER_QUOTES.get(character)`
unfoldable pub identifier_quotes : ℕ → Option ℕ
identifier_quotes c =
    if c == b'"'
    then some b'"'
    else if c == b'`'
    then some b'`'
    else if c == b'['
    then some b']'
    else none

-- The inner `while` of a named placeholder: the name up to `)`, to the next `%(`, or to the end,
-- and the text from there.
unfoldable pub scan_name : Text → Text × Text
scan_name [] = ([], [])
scan_name (c ∷ rest) =
    let (name, after) = scan_name rest in
    if c == b')'
    then ([], c ∷ rest)
    else if (c == b'%') && follows b'(' rest
    then ([], c ∷ rest)
    else (c ∷ name, after)

-- `required_names.add(name)`
unfoldable pub add_name : Text → List Text → List Text
add_name name names = if contains name names then names else name ∷ names

-- `%(` in a query with named parameters, on the name and on the text from `placeholder_end`.
unfoldable pub step_named : List Text → Scan → Text → Text → Outcome
step_named names s name [] = stop (emit s (codes "%(" ++ name))
step_named names s name (c ∷ after) =
    if (c == b'%') && follows b'(' after
    then next (emit s (codes "%(" ++ name)) (c ∷ after)
    else if not (follows b's' after)
    then next (emit s (codes "%(" ++ (name ++ c ∷ []))) after
    else if not (contains name names)
    then key_error name
    else next
        (record s {
          converted = s.converted ++ b':' ∷ name;
          required_names = add_name name s.required_names;
        })
        (drop 1 after)

-- The last branch: `character in "?:@$"` marks a native placeholder.
abbrev pub is_native_marker : ℕ → Bool
is_native_marker c = (c == b'?') || (c == b':') || (c == b'@') || (c == b'$')

abbrev pub emit_plain : Scan → ℕ → Scan
emit_plain s c = record s {
  converted = s.converted ++ c ∷ [];
  native_bindings = is_native_marker c || s.native_bindings;
}

-- The last branches of `state == "sql"`: an escaped percent sign, a placeholder, or a plain
-- character. `names` is `None` for positional parameters.
unfoldable pub step_percent : Option (List Text) → Scan → ℕ → Text → Outcome
step_percent none s c rest =
    if (c == b'%') && follows b'%' rest
    then next (emit s (codes "%")) (drop 1 rest)
    else if (c == b'%') && follows b's' rest
    then next
        (record s {
          converted = s.converted ++ codes "?";
          positional_count = s.positional_count + 1;
        })
        (drop 1 rest)
    else next (emit_plain s c) rest
step_percent (some names) s c rest =
    if (c == b'%') && follows b'%' rest
    then next (emit s (codes "%")) (drop 1 rest)
    else if (c == b'%') && follows b'(' rest
    then (let (name, after) = scan_name (drop 1 rest) in step_named names s name after)
    else next (emit_plain s c) rest

-- `state == "sql"`
unfoldable pub step_sql : Option (List Text) → Scan → ℕ → Text → Outcome
step_sql names s c rest =
    if (c == b'-') && follows b'-' rest
    then next (enter s line_comment (codes "--")) (drop 1 rest)
    else if (c == b'/') && follows b'*' rest
    then next (enter s block_comment (codes "/*")) (drop 1 rest)
    else if c == b'\''
    then next (enter s literal (c ∷ [])) rest
    else elim (identifier_quotes c) [
      | some closing ↦ next (record (enter s identifier (c ∷ [])) { closing_quote = closing }) rest
      | none ↦ step_percent names s c rest
    ]

unfoldable pub step_in : State → Option (List Text) → Scan → ℕ → Text → Outcome
step_in line_comment names s c rest = step_line_comment s c rest
step_in block_comment names s c rest = step_block_comment s c rest
step_in identifier names s c rest = step_identifier s c rest
step_in literal names s c rest = step_literal s c rest
step_in sql names s c rest = step_sql names s c rest

-- One round of `while index < len(query)`.
abbrev pub step : Option (List Text) → Scan → ℕ → Text → Outcome
step names s = step_in s.state names s

pub record QueryBindings : Type 0 where
  pub query : Text
  pub positional_count : ℕ
  pub required_names : List Text
  pub native_bindings : Bool

pub data Converted : Type 0 where
  bindings : QueryBindings → Converted
  missing : Text → Converted
  out_of_fuel : Converted

abbrev pub finish : Scan → Converted
finish s = bindings (record {
  query = s.converted;
  positional_count = s.positional_count;
  required_names = s.required_names;
  native_bindings = s.native_bindings;
})

-- What follows a round: the rest of the loop, its end, or the exception.
abbrev pub resume : (Scan → Text → Converted) → Outcome → Converted
resume k (next s rest) = k s rest
resume k (stop s) = finish s
resume k (key_error name) = missing name

-- The loop, with fuel for its rounds.
unfoldable pub run : ℕ → Option (List Text) → Scan → Text → Converted
run zero names s rest = out_of_fuel
run (suc fuel) names s [] = finish s
run (suc fuel) names s (c ∷ rest) = resume (run fuel names) (step names s c rest)

unfoldable pub convert_placeholders : Text → Option (List Text) → Converted
unfolding run step_in step_line_comment step_block_comment step_identifier step_literal step_sql
    identifier_quotes step_percent step_named scan_name add_name contains
convert_placeholders query names = run (suc (length query)) names initial query
