-- ===== src/Audit/Release.antt =====
-- The requirements that scripts/audit_dependencies.py audits, and the audit of one release:
-- `_runtime_dependencies`, `_audit_release` and the loop of `main`.
use django_pyturso.Audit.{Json, AuditCalls, validate_response}
use django_pyturso.Exec.{value_error, os_error, audit_error, Answer, ok, raised, ◌then_do◌}
use django_pyturso.Prelude.{
  ℕ, Bool, true, false, not, ◌&&◌, ◌||◌, Option, none, some, List, [], ◌∷◌, ◌++◌, Text, codes,
  text_eq, if◌then◌else◌, Dict, get_item, set_item, length, ltb, ◌==◌, follows, ◌*◌, ◌+◌,
}

-- What the script reads of a `Requirement`: whether it has a URL, its specifiers as an operator and a
-- version, and what its marker evaluates to, if it has one.
pub record Requirement : Type 0 where
  pub name : Text
  pub has_url : Bool
  pub specifiers : List (Text × Text)
  pub marker : Option Bool

-- A response: whether it is one of HTTP, its status, its content type, and what reading at most so
-- many bytes gives, which is a text of bytes or something else.
pub record Response : Type 0 where
  pub is_http : Bool
  pub status : ℕ
  pub content_type : Text
  pub read : ℕ → Answer (Option Text)

-- What the script calls of the packaging library, of urllib and of json. `quote` is the quoted text
-- of a version, and `loads` decodes the bytes and reads JSON, with `_unique_keys` for each object and
-- `_reject_constant`.
pub record ReleaseCalls : Type 1 where
  pub audit : AuditCalls
  pub parse_requirement : Text → Answer Requirement
  pub is_blank : Text → Bool
  pub quote : audit.Version → Text
  pub open_url : Text → Answer Response
  pub loads : Text → Answer Json

-- The version that the specifiers pin.
abbrev pub one_pin : List (Text × Text) → Option Text
one_pin ((operator, version) ∷ []) = if text_eq operator (codes "==") then some version else none
one_pin _ = none

abbrev pub pinned : Requirement → Option Text
pinned requirement = if requirement.has_url then none else one_pin requirement.specifiers

-- `except (OSError, ValueError)`
abbrev pub as_audit_error {ℓ} : {A : Type ℓ} → Answer A → Answer A
as_audit_error (ok a) = ok a
as_audit_error (raised value_error) = raised audit_error
as_audit_error (raised os_error) = raised audit_error
as_audit_error (raised x) = raised x

abbrev pub max_response_bytes : ℕ
max_response_bytes = 4 * 1024 * 1024

module _ (calls : ReleaseCalls) where
  open calls use {audit, parse_requirement, is_blank, quote, open_url, loads}

  abbrev pub Version : Type 0
  Version = audit.Version

  abbrev pub add_dependency : Text → Version → Dict Version → Answer (Dict Version)
  add_dependency name version dependencies = elim (get_item name dependencies) [
    | some _ ↦ raised audit_error
    | none ↦ ok (set_item name version dependencies)
  ]

  abbrev pub add_unless_excluded :
      Option Bool → Text → Version → Dict Version → Answer (Dict Version)
  add_unless_excluded (some false) name version dependencies = ok dependencies
  add_unless_excluded _ name version dependencies =
      audit.canonicalize_name name then_do λ canonical.
      add_dependency canonical version dependencies

  abbrev pub add_pinned : Requirement → Option Text → Dict Version → Answer (Dict Version)
  add_pinned requirement none dependencies = raised audit_error
  add_pinned requirement (some pin) dependencies = audit.parse_version pin then_do λ version.
      add_unless_excluded requirement.marker requirement.name version dependencies

  -- The round for a line.
  unfoldable pub read_line : Text → Dict Version → Answer (Dict Version)
  unfolding get_item set_item text_eq
  read_line line dependencies =
      if is_blank line || follows b'#' line
      then ok dependencies
      else (parse_requirement line then_do λ requirement.
          add_pinned requirement (pinned requirement) dependencies)

  unfoldable pub read_lines : List Text → Dict Version → Answer (Dict Version)
  unfolding read_line
  read_lines [] dependencies = ok dependencies
  read_lines (line ∷ lines) dependencies = read_line line dependencies then_do read_lines lines

  abbrev pub unless_empty : Dict Version → Answer (Dict Version)
  unless_empty [] = raised audit_error
  unless_empty (d ∷ dependencies) = ok (d ∷ dependencies)

  -- `_runtime_dependencies`, on the lines of the file.
  unfoldable pub runtime_dependencies : List Text → Answer (Dict Version)
  unfolding read_lines
  runtime_dependencies lines = read_lines lines [] then_do unless_empty

  abbrev pub url_of : Text → Version → Text
  url_of name version =
      codes "https://pypi.org/pypi/" ++ (name ++ (codes "/" ++ (quote version ++ codes "/json")))

  abbrev pub check_body : Option Text → Answer Text
  check_body none = raised audit_error
  check_body (some body) =
      if ltb max_response_bytes (length body) then raised audit_error else ok body

  abbrev pub read_body : Response → Answer Text
  read_body response =
      if not response.is_http
      then raised audit_error
      else if (response.status == 200) && text_eq response.content_type (codes "application/json")
      then (response.read (max_response_bytes + 1) then_do check_body)
      else raised audit_error

  -- `_audit_release`
  unfoldable pub audit_release : Text → Version → Answer (List Text)
  unfolding text_eq validate_response
  audit_release name version = as_audit_error (
      open_url (url_of name version) then_do λ response. read_body response then_do λ body.
      loads body then_do λ decoded. validate_response audit decoded name version)

  abbrev pub is_vulnerable : List Text → Bool
  is_vulnerable [] = false
  is_vulnerable (_ ∷ _) = true

  -- The loop of `main`, with its `vulnerable`, and the end.
  unfoldable pub audit_all : Dict Version → Bool → Answer (Unit {0})
  unfolding audit_release
  audit_all [] vulnerable = if vulnerable then raised audit_error else ok tt
  audit_all ((name, version) ∷ dependencies) vulnerable =
      audit_release name version then_do λ active.
      audit_all dependencies (vulnerable || is_vulnerable active)
