-- ===== src/Creation.antt =====
-- Test databases: `DatabaseCreation` of src/django_pyturso/creation.py.
pub mod Removal
pub mod Safety
use django_pyturso.Exec.{
  Exc, type_error, not_supported, os_error, system_exit, Answer, ok, raised, Exec, pure, raise,
  lift, ◌>>=◌, ◌>>◌, continue, catch, ◌then_do◌,
}
use django_pyturso.Prelude.{
  Bool, true, false, not, ◌&&◌, ◌||◌, Option, none, some, List, [], ◌∷◌, ◌++◌, Text, codes, text_eq,
  if◌then◌else◌,
}

-- A database name in the settings. A path-like object is given by what `os.fspath` returns for it,
-- `other` is any other object, true or not.
pub data Name : Type 0 where
  text bytes path bytes_path : Text → Name
  other : Bool → Name

-- `is_in_memory_db`
unfoldable pub is_in_memory_db : Name → Bool
unfolding text_eq
is_in_memory_db (text t) = text_eq t (codes ":memory:")
is_in_memory_db (path t) = text_eq t (codes ":memory:")
is_in_memory_db _ = false

-- `_database_path`
abbrev pub database_path_of : Name → Answer Text
database_path_of (text t) = ok t
database_path_of (path t) = ok t
database_path_of _ = raised type_error

abbrev pub is_text_true : Text → Bool
is_text_true [] = false
is_text_true (_ ∷ _) = true

abbrev pub is_true : Name → Bool
is_true (text t) = is_text_true t
is_true (bytes t) = is_text_true t
is_true (path t) = true
is_true (bytes_path t) = true
is_true (other b) = b

-- `except OSError`
abbrev pub as_exit : Exc → Exc
as_exit os_error = system_exit 2
as_exit x = x

-- `settings_dict`: the name, and the name in `TEST` if that is a mapping.
pub record TestSettings : Type 0 where
  pub name : Name
  pub test_name : Option Name

-- What the methods call. `D` is the state of the connection and of the files. `with_test_prefix` is
-- `str(path.with_name(f"test_{path.name}"))`, `as_path` is `str(Path(name))`, and `switch` is
-- `_close_for_test_database_switch`, a sequence of the connection's methods.
pub record CreationCalls : Type 1 where
  pub D : Type 0
  pub with_test_prefix : Text → Answer Text
  pub as_path : Text → Text
  pub exists : Text → D → Bool
  pub unlink : Text → D → Answer (Unit {0}) × D
  pub ask : D → Answer Text × D
  pub validate_thread_sharing : D → Answer (Unit {0}) × D
  pub validate_no_atomic_block : D → Answer (Unit {0}) × D
  pub rollback_and_force_close : D → Answer (Unit {0}) × D
  pub close : D → Answer (Unit {0}) × D
  pub set_name : Name → D → D

module _ (calls : CreationCalls) where
  open calls use {
    D, with_test_prefix, as_path, exists, unlink, ask, validate_thread_sharing,
    validate_no_atomic_block, rollback_and_force_close, close, set_name,
  }

  abbrev pub derived_name : Text → Answer Text
  derived_name source =
      if is_in_memory_db (text source) then ok (codes ":memory:") else with_test_prefix source

  -- `_get_test_db_name`
  unfoldable pub get_test_db_name : TestSettings → Answer Text
  unfolding is_in_memory_db
  get_test_db_name settings = elim settings.test_name [
    | none ↦ raised type_error
    | some configured ↦
        if is_true configured
        then database_path_of configured
        else (database_path_of settings.name then_do derived_name)
  ]

  -- `_close_for_test_database_switch`
  abbrev pub switch : Exec D (Unit {0})
  switch = validate_thread_sharing >> (validate_no_atomic_block >> rollback_and_force_close)

  abbrev pub artifacts : Text → List Text
  artifacts file = file ∷ (file ++ codes "-wal") ∷ (file ++ codes "-log") ∷ []

  unfoldable pub remove_all : List Text → Exec D (Unit {0})
  remove_all [] d = (ok tt, d)
  remove_all (artifact ∷ rest) d =
      let later = remove_all rest d in
      if exists artifact d then continue (unlink artifact d) (λ _. remove_all rest) else later

  -- `_remove_database_artifacts` under its handler, and the answer.
  abbrev pub remove_old : Text → Exec D Text
  remove_old name =
      catch (remove_all (artifacts (as_path name))) (λ x. raise (as_exit x)) >>= λ _. pure name

  abbrev pub remove_if_confirmed : Text → Text → Exec D Text
  remove_if_confirmed name answer =
      if text_eq answer (codes "yes") then remove_old name else raise (system_exit 1)

  -- `_create_test_db`, behind the switch.
  unfoldable pub clear_database : Bool → Bool → Text → Exec D Text
  unfolding remove_all is_in_memory_db text_eq
  clear_database autoclobber keepdb name d =
      if is_in_memory_db (text name) || keepdb
      then (ok name, d)
      else if exists (as_path name) d && not autoclobber
      then continue (ask d) (λ answer. remove_if_confirmed name answer)
      else remove_old name d

  -- `_create_test_db`
  unfoldable pub create_test_db : TestSettings → Bool → Bool → Exec D Text
  unfolding get_test_db_name clear_database
  create_test_db settings autoclobber keepdb = lift (get_test_db_name settings) >>= λ name.
      (switch >> clear_database autoclobber keepdb name)

  -- `_destroy_test_db`
  unfoldable pub destroy_test_db : Text → Exec D (Unit {0})
  unfolding remove_all is_in_memory_db
  destroy_test_db name =
      if is_text_true name && not (is_in_memory_db (text name))
      then close >> remove_all (artifacts (as_path name))
      else pure tt

  -- `set_as_test_mirror`
  unfoldable pub set_as_test_mirror : Name → Exec D (Unit {0})
  unfolding is_in_memory_db
  set_as_test_mirror primary_name =
      if is_in_memory_db primary_name
      then raise not_supported
      else switch >> λ d. (ok tt, set_name primary_name d)
