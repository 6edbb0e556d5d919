-- ===== src/FieldTypes.antt =====
-- Column types: `_get_varchar_column` of src/django_pyturso/base.py, and `get_field_size`,
-- `FlexibleFieldLookupDict` and `get_field_type` of src/django_pyturso/introspection.py. Case, blanks
-- and digits are those of ASCII.
pub mod RoundTrip
use django_pyturso.Decimals.{decimal, is_digit, int_from}
use django_pyturso.Identifiers.{lower_ascii}
use django_pyturso.Prelude.{
  ℕ, Bool, true, false, not, ◌&&◌, ◌||◌, Option, none, some, List, [], ◌∷◌, ◌++◌, map, Text, codes,
  text_eq, contains, Dict, get_item, ◌==◌, leb, if◌then◌else◌, follows, drop,
}

-- `_get_varchar_column`
unfoldable pub get_varchar_column : Option ℕ → Text
unfolding decimal
get_varchar_column none = codes "varchar"
get_varchar_column (some max_length) = codes "varchar(" ++ (decimal max_length ++ codes ")")

-- `str.isspace` for a character of ASCII.
abbrev pub is_space : ℕ → Bool
is_space c = (c == b' ') || (leb 9 c && leb c 13) || (leb 28 c && leb c 31)

-- `\s*`
unfoldable pub skip_spaces : Text → Text
skip_spaces [] = []
skip_spaces (c ∷ t) = let later = skip_spaces t in if is_space c then later else c ∷ t

-- A word in lower case, matched in any case: what is left behind it.
unfoldable pub match_word : Text → Text → Option Text
unfolding lower_ascii
match_word [] t = some t
match_word (w ∷ word) [] = none
match_word (w ∷ word) (c ∷ t) = if lower_ascii c == w then match_word word t else none

abbrev pub first_match : Option Text → Option Text → Option Text
first_match (some t) other = some t
first_match none other = other

-- `(?:var)?char`
unfoldable pub match_char : Text → Option Text
unfolding match_word
match_char t = first_match (match_word (codes "varchar") t) (match_word (codes "char") t)

-- `\d*`, and what is left behind it.
unfoldable pub span_digits : Text → Text × Text
span_digits [] = ([], [])
span_digits (c ∷ t) =
    let (ds, rest) = span_digits t in if is_digit c then (c ∷ ds, rest) else ([], c ∷ t)

abbrev pub is_end : Text → Bool
is_end [] = true
is_end (_ ∷ _) = false

-- `\s*\)\s*$`, behind the digits.
unfoldable pub close_size : Text × Text → Option ℕ
unfolding int_from skip_spaces
close_size ([], rest) = none
close_size (d ∷ ds, rest) =
    let closing = skip_spaces rest in
    if follows b')' closing && is_end (skip_spaces (drop 1 closing))
    then some (int_from 0 (d ∷ ds))
    else none

-- `\s*\(\s*(\d+)`, behind the word.
unfoldable pub read_size : Option Text → Option ℕ
unfolding close_size span_digits skip_spaces
read_size none = none
read_size (some t) =
    let opening = skip_spaces t in
    if follows b'(' opening then close_size (span_digits (skip_spaces (drop 1 opening))) else none

-- `get_field_size`
unfoldable pub get_field_size : Text → Option ℕ
unfolding read_size match_char skip_spaces
get_field_size name = read_size (match_char (skip_spaces name))

abbrev pub base_data_types_reverse : Dict Text
base_data_types_reverse =
    (codes "bool", codes "BooleanField")
    ∷ (codes "boolean", codes "BooleanField")
    ∷ (codes "smallint", codes "SmallIntegerField")
    ∷ (codes "smallint unsigned", codes "PositiveSmallIntegerField")
    ∷ (codes "smallinteger", codes "SmallIntegerField")
    ∷ (codes "int", codes "IntegerField")
    ∷ (codes "integer", codes "IntegerField")
    ∷ (codes "bigint", codes "BigIntegerField")
    ∷ (codes "integer unsigned", codes "PositiveIntegerField")
    ∷ (codes "bigint unsigned", codes "PositiveBigIntegerField")
    ∷ (codes "decimal", codes "DecimalField")
    ∷ (codes "numeric", codes "DecimalField")
    ∷ (codes "real", codes "FloatField")
    ∷ (codes "float", codes "FloatField")
    ∷ (codes "double", codes "FloatField")
    ∷ (codes "text", codes "TextField")
    ∷ (codes "char", codes "CharField")
    ∷ (codes "varchar", codes "CharField")
    ∷ (codes "blob", codes "BinaryField")
    ∷ (codes "date", codes "DateField")
    ∷ (codes "datetime", codes "DateTimeField")
    ∷ (codes "time", codes "TimeField")
    ∷ []

-- `key.split("(", 1)[0]`
unfoldable pub before_parenthesis : Text → Text
before_parenthesis [] = []
before_parenthesis (c ∷ t) = let rest = before_parenthesis t in if c == b'(' then [] else c ∷ rest

-- `str.rstrip`
unfoldable pub strip_right : Text → Text
strip_right [] = []
strip_right (c ∷ t) = let rest = strip_right t in if is_space c && is_end rest then [] else c ∷ rest

-- `value.startswith(prefix)`
unfoldable pub starts_with_text : Text → Text → Bool
starts_with_text [] value = true
starts_with_text (p ∷ prefix) [] = false
starts_with_text (p ∷ prefix) (c ∷ value) = (p == c) && starts_with_text prefix value

-- `fragment in value`
unfoldable pub has_fragment : Text → Text → Bool
unfolding starts_with_text
has_fragment fragment [] = is_end fragment
has_fragment fragment (c ∷ t) = starts_with_text fragment (c ∷ t) || has_fragment fragment t

-- `any(fragment in value for fragment in fragments)`
abbrev pub has_any : List Text → Text → Bool
has_any [] value = false
has_any (fragment ∷ fragments) value = has_fragment fragment value || has_any fragments value

-- The declared type without its arguments.
unfoldable pub declared_type : Text → Text
unfolding strip_right skip_spaces before_parenthesis lower_ascii
declared_type key = strip_right (skip_spaces (before_parenthesis (map lower_ascii key)))

abbrev pub by_affinity : Text → Option Text → Text
by_affinity declared (some field) = field
by_affinity declared none =
    if has_fragment (codes "int") declared
    then codes "IntegerField"
    else if has_any (codes "char" ∷ codes "clob" ∷ codes "text" ∷ []) declared
    then codes "TextField"
    else if is_end declared || has_fragment (codes "blob") declared
    then codes "BinaryField"
    else if has_any (codes "real" ∷ codes "floa" ∷ codes "doub" ∷ []) declared
    then codes "FloatField"
    else codes "DecimalField"

-- `FlexibleFieldLookupDict.__getitem__`
unfoldable pub lookup_field : Text → Text
unfolding declared_type has_fragment get_item
lookup_field key =
    by_affinity (declared_type key) (get_item (declared_type key) base_data_types_reverse)

abbrev pub integer_fields : List Text
integer_fields = codes "BigIntegerField" ∷ codes "IntegerField" ∷ codes "SmallIntegerField" ∷ []

-- `get_field_type`, from the declared type, `pk` and `has_json_constraint`.
unfoldable pub get_field_type : Text → Bool → Bool → Text
unfolding lookup_field contains
get_field_type data_type pk has_json_constraint =
    let field_type = lookup_field data_type in
    if pk && contains field_type integer_fields
    then codes "AutoField"
    else if has_json_constraint
    then codes "JSONField"
    else field_type
