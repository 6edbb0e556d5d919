-- ===== src/Opening.antt =====
-- `DatabaseWrapper.get_new_connection`, `_configure_journal_mode` and `_parse_database_version` in
-- src/django_pyturso/base.py: how a connection is opened, set up and checked.
pub mod Journal
pub mod Setup
use django_pyturso.Decimals.{isdigit, int_from}
use django_pyturso.Exec.{
  Exc, database_error, improperly_configured, operational_error, Answer, ok, raised, Exec, pure,
  raise, lift, ◌>>=◌, ◌>>◌, catch, handle, continue,
}
use django_pyturso.Prelude.{
  ℕ, ◌+◌, ◌*◌, ◌-◌, Bool, true, false, not, ◌&&◌, ◌||◌, Option, none, some, List, [], ◌∷◌, Text,
  codes, text_eq, contains, leb, ◌==◌, if◌then◌else◌,
}

-- The first value of a row.
pub data Cell : Type 0 where
  text : Text → Cell
  integer : ℕ → Cell
  opaque : Cell

-- What the method calls. `E` is the state of the new connection. `query` is a cursor's `execute`
-- and `fetchone`, `upper` is `str.upper`, and `is_io_error` recognises an exception of the extension
-- type `turso.IoError`.
pub record OpenCalls : Type 1 where
  pub E : Type 0
  pub connect : Text → Answer E
  pub is_io_error : Exc → Bool
  pub upper : Text → Text
  pub open_cursor : E → Answer (Unit {0}) × E
  pub close_cursor : E → Answer (Unit {0}) × E
  pub execute : Text → E → Answer (Unit {0}) × E
  pub fetchall : E → Answer (Unit {0}) × E
  pub query : Text → E → Answer (Option Cell) × E
  pub close : E → Answer (Unit {0}) × E

abbrev pub push_first : ℕ → List Text → List Text
push_first c [] = (c ∷ []) ∷ []
push_first c (part ∷ parts) = (c ∷ part) ∷ parts

-- `raw_version.split(".")`
unfoldable pub split_dots : Text → List Text
split_dots [] = [] ∷ []
split_dots (c ∷ t) =
    let parts = split_dots t in if c == b'.' then [] ∷ parts else push_first c parts

abbrev pub version_of_parts : List Text → Answer (ℕ × ℕ × ℕ)
version_of_parts (a ∷ b ∷ c ∷ []) =
    if isdigit a && isdigit b && isdigit c
    then ok (int_from 0 a, int_from 0 b, int_from 0 c)
    else raised database_error
version_of_parts _ = raised database_error

unfoldable pub parse_database_version : Cell → Answer (ℕ × ℕ × ℕ)
unfolding split_dots int_from
parse_database_version (text raw_version) = version_of_parts (split_dots raw_version)
parse_database_version _ = raised database_error

module _ (calls : OpenCalls) where
  open calls use {
    E, connect, is_io_error, upper, open_cursor, close_cursor, execute, fetchall, query, close,
  }

  -- The journal mode that a row reports, if it is a known one.
  unfoldable pub reported_mode : Option Cell → Option Text
  unfolding contains
  reported_mode (some (text t)) =
      if contains (upper t) (codes "WAL" ∷ codes "MVCC" ∷ []) then some (upper t) else none
  reported_mode _ = none

  abbrev pub is_mvcc : Option Cell → Bool
  is_mvcc (some (text t)) = text_eq (upper t) (codes "MVCC")
  is_mvcc _ = false

  abbrev pub confirm_mvcc : Option Cell → Exec E (Unit {0})
  confirm_mvcc row = if is_mvcc row then pure tt else raise database_error

  -- The change to MVCC and its readback.
  unfoldable pub enable_mvcc : Exec E (Unit {0})
  unfolding text_eq
  enable_mvcc = do
    execute (codes "PRAGMA journal_mode = MVCC")
    fetchall
    row ← query (codes "PRAGMA journal_mode")
    confirm_mvcc row

  unfoldable pub adapt_mode : Text → Option Text → Exec E (Unit {0})
  unfolding enable_mvcc text_eq
  adapt_mode journal_mode none = raise database_error
  adapt_mode journal_mode (some current) =
      if text_eq current journal_mode
      then pure tt
      else if text_eq journal_mode (codes "WAL")
      then raise improperly_configured
      else enable_mvcc

  -- `_configure_journal_mode`
  unfoldable pub configure_journal_mode : Text → Exec E (Unit {0})
  unfolding reported_mode adapt_mode
  configure_journal_mode journal_mode = do
    row ← query (codes "PRAGMA journal_mode")
    adapt_mode journal_mode (reported_mode row)

  abbrev pub configure_if_set : Option Text → Exec E (Unit {0})
  configure_if_set none = pure tt
  configure_if_set (some journal_mode) = configure_journal_mode journal_mode

  -- `row is None or row[0] != 1`
  abbrev pub is_one : Option Cell → Bool
  is_one (some (integer n)) = n == 1
  is_one _ = false

  unfoldable pub enforce_foreign_keys : Exec E (Unit {0})
  enforce_foreign_keys = do
    execute (codes "PRAGMA foreign_keys = ON")
    row ← query (codes "PRAGMA foreign_keys")
    if is_one row then pure tt else raise database_error

  abbrev pub version_of_row : Option Cell → Answer (ℕ × ℕ × ℕ)
  version_of_row none = raised database_error
  version_of_row (some cell) = parse_database_version cell

  -- The inner `try` block: the connected engine's version.
  unfoldable pub prepare : Option Text → Exec E (ℕ × ℕ × ℕ)
  unfolding configure_journal_mode enforce_foreign_keys parse_database_version
  prepare journal_mode = do
    configure_if_set journal_mode
    enforce_foreign_keys
    row ← query (codes "SELECT sqlite_version()")
    lift (version_of_row row)

  -- `finally: cursor.close()`. An exception of the close takes the place of another.
  abbrev pub closing : {A : Type 0} → Answer A × E → Answer A × E
  closing (r, e) = continue (close_cursor e) (λ _. lift r)

  -- The outer `try` block and its handler.
  unfoldable pub set_up : Option Text → Exec E (ℕ × ℕ × ℕ)
  unfolding prepare
  set_up journal_mode =
      catch (open_cursor >>= λ _ e. closing (prepare journal_mode e))
        (λ error. close >> raise error)

  abbrev pub translate : Exc → Exc
  translate error = if is_io_error error then operational_error else error

  -- `get_new_connection`: the answer, the version that is stored, and the connection's state, if
  -- one was opened.
  unfoldable pub get_new_connection : Option Text → Option Text → Answer (ℕ × ℕ × ℕ) × Option E
  unfolding set_up
  get_new_connection journal_mode none = (raised improperly_configured, none)
  get_new_connection journal_mode (some database) = elim (connect database) [
    | raised error ↦ (raised (translate error), none)
    | ok e ↦ let (r, e') = set_up journal_mode e in (r, some e')
  ]
