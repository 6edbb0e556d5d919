-- ===== src/Examples/Advisories.antt =====
-- A response with an active advisory and one that is withdrawn.
use django_pyturso.Audit.Clean.{IsClean, audit_all-IsClean}
use django_pyturso.Audit.Complete.{Advisory, strings, active_ids, validate_response-active_ids}
use django_pyturso.Audit.Release.{ReleaseCalls, audit_all, runtime_dependencies}
use django_pyturso.Audit.Sound.{Reports, validate_response-Reports}
use django_pyturso.Audit.Timestamps.{is_timestamp}
use django_pyturso.Audit.{
  Json, null, string, array, object, Items, item, empty_array, field, empty_object, get_field,
  has_field, AuditCalls, validate_response,
}
use django_pyturso.Exec.{ok, raised, os_error, audit_error}
use django_pyturso.Prelude.{
  ◌≡◌, refl, ◌↔◌, true, false, none, some, List, [], ◌∷◌, Text, codes, text_eq, Dict, All, ◌==◌,
}

-- A service whose versions are texts.
abbrev plain_calls : AuditCalls
plain_calls = record {
  Version = Text;
  canonicalize_name = λ t. ok t;
  parse_version = λ t. ok t;
  same_version = text_eq;
  is_space = λ c. c == b' ';
  from_iso_format = λ t. ok tt;
}

abbrev advisories : List Advisory
advisories =
    record {
      id = codes "A-1";
      aliases = codes "CVE-1" ∷ [];
      fixed_in = codes "2" ∷ [];
      withdrawn = none;
    }
    ∷ record {
      id = codes "A-2";
      aliases = [];
      fixed_in = [];
      withdrawn = some (codes "2024-01-02T03:04:05.678+01:30");
    }
    ∷ []

-- The fields stand in any order, with others beside them.
abbrev first_json : Json
first_json = object (
    field (codes "link") (string (codes "x")) (
      field (codes "withdrawn") null (
        field (codes "fixed_in") (array (strings (codes "2" ∷ []))) (
          field (codes "id") (string (codes "A-1"))
            (field (codes "aliases") (array (strings (codes "CVE-1" ∷ []))) empty_object)))))

abbrev second_json : Json
second_json = object (
    field (codes "id") (string (codes "A-2")) (
      field (codes "aliases") (array (strings [])) (
        field (codes "fixed_in") (array (strings [])) (
          field (codes "withdrawn") (string (codes "2024-01-02T03:04:05.678+01:30"))
            empty_object))))

abbrev response_with : Items → Json
response_with items = object (
    field (codes "urls") null (
      field (codes "vulnerabilities") (array items) (
        field (codes "info")
          (object (
            field (codes "author") null (
              field (codes "version") (string (codes "1"))
                (field (codes "name") (string (codes "pkg")) empty_object))))
          empty_object)))

abbrev stated : Items
stated = item first_json (item second_json empty_array)

abbrev response : Json
response = response_with stated

validate_response-active_ids_example :
    validate_response plain_calls response (codes "pkg") (codes "1") ≡ ok (active_ids advisories)
unfolding text_eq is_timestamp get_field has_field
validate_response-active_ids_example =
    validate_response-active_ids plain_calls response (codes "pkg") (codes "1") (codes "pkg")
      (codes "1") (codes "1") stated advisories (_, _, refl, refl, refl, refl, refl) refl refl refl
      ((_, refl, refl, refl, refl, refl, refl), ((_, refl, refl, refl, refl, refl, refl), tt))
      (
        (refl, refl, (refl, tt), ((refl, (codes "2", refl)), tt), tt),
        ((refl, refl, tt, tt, (refl, refl)), tt),
      )

reported : validate_response plain_calls response (codes "pkg") (codes "1") ≡ ok (codes "A-1" ∷ [])
unfolding validate_response text_eq is_timestamp
reported = refl

validate_response-Reports_example :
    Reports plain_calls response (codes "pkg") (codes "1") (codes "A-1" ∷ [])
validate_response-Reports_example =
    validate_response-Reports plain_calls response (codes "pkg") (codes "1") (codes "A-1" ∷ [])
      reported

not_a_timestamp : is_timestamp (codes "2024-01-02T03:04:05+24:00") ≡ false
unfolding is_timestamp
not_a_timestamp = refl

-- A service that cannot be reached.
abbrev offline : ReleaseCalls
offline = record {
  audit = plain_calls;
  parse_requirement = λ t. ok (record {
    name = t;
    has_url = false;
    specifiers = (codes "==", codes "1") ∷ [];
    marker = none;
  });
  is_blank = λ t. text_eq t [];
  quote = λ v. v;
  open_url = λ url. raised os_error;
  loads = λ body. ok null;
}

abbrev one_dependency : Dict Text
one_dependency = (codes "pkg", codes "1") ∷ []

-- A service that answers with a release without advisories.
abbrev online : ReleaseCalls
online = record offline {
  open_url = λ url. ok (record {
    is_http = true;
    status = 200;
    content_type = codes "application/json";
    read = λ n. ok (some []);
  });
  loads = λ body. ok (response_with empty_array);
}

audit_all-IsClean_example :
    (audit_all online one_dependency false ≡ ok tt) ↔ All (IsClean online) one_dependency
audit_all-IsClean_example = audit_all-IsClean online one_dependency

online_passes : audit_all online one_dependency false ≡ ok tt
unfolding audit_all text_eq
online_passes = refl

offline_fails : audit_all offline one_dependency false ≡ raised audit_error
unfolding audit_all
offline_fails = refl

duplicate_fails :
    runtime_dependencies offline (codes "pkg" ∷ codes "# a" ∷ codes "pkg" ∷ []) ≡ raised audit_error
unfolding runtime_dependencies text_eq
duplicate_fails = refl
