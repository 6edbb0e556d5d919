-- ===== src/Audit.antt =====
-- The audit of dependencies in scripts/audit_dependencies.py: `_unique_keys`, `_advisory_strings`,
-- `_validate_response` and what `_audit_release` does with a response.
pub mod Timestamps
pub mod Advisories
pub mod Sound
pub mod Complete
pub mod Release
pub mod Clean
use django_pyturso.Audit.Timestamps.{is_timestamp}
use django_pyturso.Exec.{Exc, value_error, audit_error, Answer, ok, raised, ◌then_do◌}
use django_pyturso.Prelude.{
  ℕ, zero, suc, Bool, true, false, not, ◌&&◌, ◌||◌, Option, none, some, List, [], ◌∷◌, ◌++◌, Text,
  codes, text_eq, if◌then◌else◌, Dict, get_item, set_item, is_some,
}

-- A decoded response. A number is given by its text.
mutual
  pub data Json : Type 0 where
    null : Json
    boolean : Bool → Json
    number string : Text → Json
    array : Items → Json
    object : Fields → Json

  pub data Items : Type 0 where
    empty_array : Items
    item : Json → Items → Items

  pub data Fields : Type 0 where
    empty_object : Fields
    field : Text → Json → Fields → Fields

-- `_unique_keys`, with the items that the loop has added.
unfoldable pub unique_keys {ℓ} : {A : Type ℓ} → List (Text × A) → Dict A → Answer (Dict A)
unfolding get_item set_item
unique_keys [] result = ok result
unique_keys ((key, value) ∷ pairs) result = elim (get_item key result) [
  | some _ ↦ raised audit_error
  | none ↦ unique_keys pairs (set_item key value result)
]

-- `dict.get(key)`, which is `None` also for JSON's `null`.
unfoldable pub get_field : Text → Fields → Json
unfolding text_eq
get_field key empty_object = null
get_field key (field k value fields) =
    let later = get_field key fields in if text_eq k key then value else later

-- `key in fields`
unfoldable pub has_field : Text → Fields → Bool
unfolding text_eq
has_field key empty_object = false
has_field key (field k value fields) = text_eq k key || has_field key fields

abbrev pub is_text_empty : Text → Bool
is_text_empty [] = true
is_text_empty (_ ∷ _) = false

-- The loop of `_advisory_strings`.
unfoldable pub read_strings : Items → Answer (List Text)
read_strings empty_array = ok []
read_strings (item (string (c ∷ t)) items) = read_strings items then_do λ rest. ok ((c ∷ t) ∷ rest)
read_strings (item _ items) = raised audit_error

-- `_advisory_strings`
unfoldable pub advisory_strings : Json → Answer (List Text)
unfolding read_strings
advisory_strings (array items) = read_strings items
advisory_strings _ = raised audit_error

-- What the script calls: `canonicalize_name` and `Version` of the packaging library, which may
-- raise, whether two versions are equal, `str.isspace` of a character, and whether
-- `datetime.fromisoformat` accepts a text.
pub record AuditCalls : Type 1 where
  pub Version : Type 0
  pub canonicalize_name : Text → Answer Text
  pub parse_version : Text → Answer Version
  pub same_version : Version → Version → Bool
  pub is_space : ℕ → Bool
  pub from_iso_format : Text → Answer (Unit {0})

module _ (calls : AuditCalls) where
  open calls use {
    Version, canonicalize_name, parse_version, same_version, is_space, from_iso_format,
  }

  abbrev pub has_space : Text → Bool
  has_space [] = false
  has_space (c ∷ t) = is_space c || has_space t

  -- `for fixed_version in …: Version(fixed_version)`
  unfoldable pub check_versions : List Text → Answer (Unit {0})
  check_versions [] = ok tt
  check_versions (version ∷ versions) = parse_version version then_do λ _. check_versions versions

  -- The identifier of an advisory, which is not empty and has no blanks.
  abbrev pub read_identifier : Json → Answer Text
  read_identifier (string (c ∷ t)) = if has_space (c ∷ t) then raised audit_error else ok (c ∷ t)
  read_identifier _ = raised audit_error

  -- Whether the advisory is active, from its state of withdrawal.
  abbrev pub read_withdrawn : Json → Answer Bool
  read_withdrawn null = ok true
  read_withdrawn (string t) =
      if is_timestamp t then (from_iso_format t then_do λ _. ok false) else raised audit_error
  read_withdrawn _ = raised audit_error

  abbrev pub with_state : Text → Bool → Answer (Text × Bool)
  with_state identifier is_active = ok (identifier, is_active)

  -- The end of the round for an advisory.
  abbrev pub finish_advisory : Text → Fields → Answer (Text × Bool)
  finish_advisory identifier fields =
      if has_field (codes "withdrawn") fields
      then (read_withdrawn (get_field (codes "withdrawn") fields) then_do with_state identifier)
      else raised audit_error

  -- The round of the loop for an advisory: its identifier, and whether it is active.
  unfoldable pub read_advisory : Json → Answer (Text × Bool)
  unfolding get_field has_field advisory_strings check_versions
  read_advisory (object fields) =
      read_identifier (get_field (codes "id") fields) then_do λ identifier.
      advisory_strings (get_field (codes "aliases") fields) then_do λ _.
      advisory_strings (get_field (codes "fixed_in") fields) then_do λ versions.
      check_versions versions then_do λ _. finish_advisory identifier fields
  read_advisory _ = raised audit_error

  abbrev pub add_active : Text × Bool → List Text → List Text
  add_active (identifier, true) active = identifier ∷ active
  add_active (identifier, false) active = active

  -- The loop over the vulnerabilities.
  unfoldable pub read_advisories : Items → Answer (List Text)
  unfolding read_advisory
  read_advisories empty_array = ok []
  read_advisories (item advisory items) = read_advisory advisory then_do λ a.
      read_advisories items then_do λ active. ok (add_active a active)

  abbrev pub check_version : Version → Version → Answer (Unit {0})
  check_version version answered =
      if same_version answered version then ok tt else raised audit_error

  -- The test of the release that was answered.
  abbrev pub check_release : Text → Version → Json → Json → Answer (Unit {0})
  check_release name version (string release_name) (string release_version) =
      canonicalize_name release_name then_do λ canonical.
      (if text_eq canonical name
        then (parse_version release_version then_do check_version version)
        else raised audit_error)
  check_release name version _ _ = raised audit_error

  abbrev pub check_info : Text → Version → Json → Answer (Unit {0})
  check_info name version (object info) =
      check_release name version (get_field (codes "name") info) (get_field (codes "version") info)
  check_info name version _ = raised audit_error

  abbrev pub read_vulnerabilities : Json → Answer (List Text)
  read_vulnerabilities (array advisories) = read_advisories advisories
  read_vulnerabilities _ = raised audit_error

  -- `_validate_response`
  unfoldable pub validate_response : Json → Text → Version → Answer (List Text)
  unfolding get_field read_advisories
  validate_response (object response) name version =
      check_info name version (get_field (codes "info") response) then_do λ _.
      read_vulnerabilities (get_field (codes "vulnerabilities") response)
  validate_response _ name version = raised audit_error
