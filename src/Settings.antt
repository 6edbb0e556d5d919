-- ===== src/Settings.antt =====
-- `DatabaseWrapper.get_connection_params` in src/django_pyturso/base.py: the database settings that
-- the backend accepts.
pub mod Sound
use django_pyturso.Exec.{
  improperly_configured, Answer, ok, raised, Exec, ◌>>=◌, ◌>>◌, modify, lift, raise, pure,
}
use django_pyturso.Prelude.{
  ℕ, Bool, true, false, not, ◌&&◌, ◌||◌, Option, none, some, List, [], ◌∷◌, Text, codes, text_eq,
  contains, leb, ◌==◌, if◌then◌else◌,
}

-- What `os.fspath` makes of an `os.PathLike` object: a `str`, `bytes`, or a `TypeError`.
pub data PathResult : Type 0 where
  path_text path_bytes : Text → PathResult
  path_error : PathResult

-- A value in the settings. An `opaque` value has another type, and is true or false as it says.
pub data Value : Type 0 where
  null : Value
  text bytes : Text → Value
  path_like : PathResult → Value
  opaque : Bool → Value

-- `OPTIONS`, missing or of any type. A key that is not text is `none`.
pub data Options : Type 0 where
  not_mapping : Bool → Options
  mapping : List (Option Text × Value) → Options

pub record SettingsDict : Type 0 where
  pub name : Value
  pub host : Value
  pub port : Value
  pub user : Value
  pub password : Value
  pub options : Options

-- The attributes that the method writes.
pub record Modes : Type 0 where
  pub transaction_mode : Text
  pub journal_mode : Option Text

abbrev pub is_nonempty : Text → Bool
is_nonempty [] = false
is_nonempty (_ ∷ _) = true

-- The truth of a value.
abbrev pub is_true : Value → Bool
is_true null = false
is_true (text t) = is_nonempty t
is_true (bytes t) = is_nonempty t
is_true (path_like _) = true
is_true (opaque b) = b

-- `value.startswith(prefix)`
unfoldable pub starts_with : Text → Text → Bool
starts_with [] value = true
starts_with (p ∷ prefix) [] = false
starts_with (p ∷ prefix) (c ∷ value) = (p == c) && starts_with prefix value

abbrev pub is_letter : ℕ → Bool
is_letter c = (leb b'A' c && leb c b'Z') || (leb b'a' c && leb c b'z')

abbrev pub is_scheme_character : ℕ → Bool
is_scheme_character c =
    is_letter c || (leb b'0' c && leb c b'9') || (c == b'+') || (c == b'.') || (c == b'-')

-- `[A-Za-z0-9+.-]*://` at the start of the text. A colon is not in the class, so the run of
-- characters in it is followed by `://` or there is no match.
unfoldable pub scheme_ends : Text → Bool
unfolding starts_with
scheme_ends [] = false
scheme_ends (c ∷ t) =
    let later = scheme_ends t in
    if is_scheme_character c then later else starts_with (codes "://") (c ∷ t)

-- `re.match(r"^[A-Za-z][A-Za-z0-9+.-]*://", database)`
unfoldable pub is_url : Text → Bool
unfolding scheme_ends
is_url [] = false
is_url (c ∷ t) = is_letter c && scheme_ends t

abbrev pub is_remote : Text → Bool
is_remote database = starts_with (codes "file:") database || is_url database

-- The database name, up to its tests.
unfoldable pub database_path : Value → Answer Text
unfolding is_url starts_with
database_path name = if not (is_true name) then raised improperly_configured else elim name [
  | text database ↦ if is_remote database then raised improperly_configured else ok database
  | path_like (path_text database) ↦
      if not (is_nonempty database) || is_remote database
      then raised improperly_configured
      else ok database
  | _ ↦ raised improperly_configured
]

-- `for key in ("HOST", "PORT", "USER", "PASSWORD")`
abbrev pub has_remote_setting : SettingsDict → Bool
has_remote_setting s = is_true s.host || is_true s.port || is_true s.user || is_true s.password

-- `all(isinstance(key, str) for key in raw_options)`, with the keys as texts.
unfoldable pub text_keys : List (Option Text × Value) → Option (List (Text × Value))
text_keys [] = some []
text_keys ((none, _) ∷ items) = none
text_keys ((some key, value) ∷ items) = elim (text_keys items) [
  | none ↦ none
  | some rest ↦ some ((key, value) ∷ rest)
]

unfoldable pub read_options : Options → Answer (List (Text × Value))
unfolding text_keys
read_options (not_mapping true) = raised improperly_configured
read_options (not_mapping false) = ok []
read_options (mapping items) = elim (text_keys items) [
  | none ↦ raised improperly_configured
  | some options ↦ ok options
]

abbrev pub known_options : List Text
known_options = codes "transaction_mode" ∷ codes "journal_mode" ∷ []

-- `if unknown`
unfoldable pub has_unknown : List (Text × Value) → Bool
unfolding contains
has_unknown [] = false
has_unknown ((key, _) ∷ options) = not (contains key known_options) || has_unknown options

-- `options.get(key)`, for a mapping whose keys are distinct.
unfoldable pub get_option : Text → List (Text × Value) → Option Value
unfolding text_eq
get_option key [] = none
get_option key ((k, value) ∷ options) =
    let later = get_option key options in if text_eq k key then some value else later

abbrev pub transaction_modes : List Text
transaction_modes = codes "DEFERRED" ∷ codes "IMMEDIATE" ∷ codes "CONCURRENT" ∷ []

abbrev pub journal_modes : List Text
journal_modes = codes "WAL" ∷ codes "MVCC" ∷ []

abbrev pub check_options : SettingsDict → Answer (List (Text × Value))
check_options s =
    if has_remote_setting s then raised improperly_configured else read_options s.options

-- `str.upper` is the argument `upper`, since it follows Unicode's tables.
module _ (upper : Text → Text) where
  -- A text of which the upper-case form is in the list: that form.
  unfoldable pub parse_mode : List Text → Value → Answer Text
  unfolding contains
  parse_mode allowed (text t) =
      if contains (upper t) allowed then ok (upper t) else raised improperly_configured
  parse_mode allowed _ = raised improperly_configured

  -- `options.get(key, default)`
  abbrev pub value_or : Value → Option Value → Value
  value_or default none = default
  value_or default (some value) = value

  unfoldable pub parse_transaction_mode : List (Text × Value) → Answer Text
  unfolding parse_mode get_option
  parse_transaction_mode options =
      parse_mode transaction_modes
        (value_or (text (codes "DEFERRED")) (get_option (codes "transaction_mode") options))

  abbrev pub as_set : Answer Text → Answer (Option Text)
  as_set (ok mode) = ok (some mode)
  as_set (raised x) = raised x

  abbrev pub parse_journal_value : Option Value → Answer (Option Text)
  parse_journal_value none = ok none
  parse_journal_value (some raw) = as_set (parse_mode journal_modes raw)

  unfoldable pub parse_journal_mode : List (Text × Value) → Answer (Option Text)
  unfolding parse_mode get_option
  parse_journal_mode options = parse_journal_value (get_option (codes "journal_mode") options)

  abbrev pub is_mvcc : Option Text → Bool
  is_mvcc none = false
  is_mvcc (some mode) = text_eq mode (codes "MVCC")

  -- The modes are compatible.
  abbrev pub check_modes : Text → Option Text → Answer (Unit {0})
  check_modes mode journal =
      if text_eq mode (codes "CONCURRENT") && not (is_mvcc journal)
      then raised improperly_configured
      else ok tt

  unfoldable pub configure_modes : List (Text × Value) → Exec Modes (Unit {0})
  unfolding parse_transaction_mode parse_journal_mode text_eq
  configure_modes options = do
    mode ← lift (parse_transaction_mode options)
    modify (λ m. record m { transaction_mode = mode; journal_mode = none })
    journal ← lift (parse_journal_mode options)
    modify (λ m. record m { journal_mode = journal })
    lift (check_modes mode journal)

  -- `get_connection_params`: the database path, with an isolation level of `None`.
  unfoldable pub get_connection_params : SettingsDict → Exec Modes Text
  unfolding database_path read_options has_unknown configure_modes
  get_connection_params s = do
    database ← lift (database_path s.name)
    options ← lift (check_options s)
    if has_unknown options then raise improperly_configured else configure_modes options
    pure database
