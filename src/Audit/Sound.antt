-- ===== src/Audit/Sound.antt =====
-- What an answer of `_validate_response` says of the response.
use django_pyturso.Audit.Advisories.{Lists, read_advisories-Lists}
use django_pyturso.Audit.{
  Json, null, boolean, number, string, array, object, Items, Fields, get_field, AuditCalls,
  check_version, check_release, check_info, read_vulnerabilities, validate_response,
}
use django_pyturso.Exec.{ok, then_do-ok}
use django_pyturso.Prelude.{
  ◌≡◌, refl, ap, ◌∙◌, true, List, Text, codes, text_eq, text_eq_iff, Bool-cases, inl, inr, arith,
}

module _ (calls : AuditCalls) where
  open calls use {Version, canonicalize_name, parse_version, same_version, from_iso_format}

  -- The response is one for this release.
  abbrev pub IsFor : Text → Version → Fields → Type 0
  IsFor name version info =
      (release_name : Text) × (release_version : Text) × (answered : Version) × (get_field
          (codes "name") info
        ≡ string release_name)
      × (get_field (codes "version") info ≡ string release_version)
      × (canonicalize_name release_name ≡ ok name)
      × (parse_version release_version ≡ ok answered)
      × (same_version answered version ≡ true)

  -- The response is one for the release, and the identifiers are those of its active advisories.
  abbrev pub Reports : Json → Text → Version → List Text → Type 0
  Reports response name version ids =
      (fields : Fields) × (info : Fields) × (advisories : Items) × (response ≡ object fields)
      × (get_field (codes "info") fields ≡ object info)
      × (get_field (codes "vulnerabilities") fields ≡ array advisories)
      × IsFor name version info
      × Lists advisories ids

  check_release-IsFor :
      (name : Text) (version : Version) (info : Fields) (a b : Json)
      → get_field (codes "name") info ≡ a
      → get_field (codes "version") info ≡ b
      → check_release calls name version a b ≡ ok tt
      → IsFor name version info
  check_release-IsFor name version info (string r) (string v) p q h =
      let (canonical, e1, h1) = then_do-ok (canonicalize_name r) _ tt h in
      elim (Bool-cases (text_eq canonical name)) [
        | inr e ↦ ground (arith, h1, e)
        | inl e ↦
            let (answered, e2, h2) =
              then_do-ok (parse_version v) (check_version calls version) tt
                (ground (arith, h1, e)) in
            elim (Bool-cases (same_version answered version)) [
              | inr f ↦ ground (arith, h2, f)
              | inl f ↦ (r, v, answered, p, q, e1 ∙ ap ok ((text_eq_iff canonical name).0 e), e2, f)
            ]
      ]
  check_release-IsFor name version info (string r) null p q h = ground arith
  check_release-IsFor name version info (string r) (boolean c) p q h = ground arith
  check_release-IsFor name version info (string r) (number t) p q h = ground arith
  check_release-IsFor name version info (string r) (array items) p q h = ground arith
  check_release-IsFor name version info (string r) (object fields) p q h = ground arith
  check_release-IsFor name version info null b p q h = ground arith
  check_release-IsFor name version info (boolean c) b p q h = ground arith
  check_release-IsFor name version info (number t) b p q h = ground arith
  check_release-IsFor name version info (array items) b p q h = ground arith
  check_release-IsFor name version info (object fields) b p q h = ground arith

  object-check_info :
      (name : Text) (version : Version) (j : Json)
      → check_info calls name version j ≡ ok tt
      → (info : Fields) × (j ≡ object info) × IsFor name version info
  object-check_info name version (object info) h =
      (info, refl, check_release-IsFor name version info _ _ refl refl h)
  object-check_info name version null h = ground arith
  object-check_info name version (boolean c) h = ground arith
  object-check_info name version (number t) h = ground arith
  object-check_info name version (string t) h = ground arith
  object-check_info name version (array items) h = ground arith

  array-read_vulnerabilities :
      (j : Json) (ids : List Text)
      → read_vulnerabilities calls j ≡ ok ids
      → (items : Items) × (j ≡ array items) × Lists items ids
  array-read_vulnerabilities (array items) ids h =
      (items, refl, read_advisories-Lists calls items ids h)
  array-read_vulnerabilities null ids h = ground arith
  array-read_vulnerabilities (boolean c) ids h = ground arith
  array-read_vulnerabilities (number t) ids h = ground arith
  array-read_vulnerabilities (string t) ids h = ground arith
  array-read_vulnerabilities (object fields) ids h = ground arith

  -- If `_validate_response` returns, the response was an object for the release that was asked for,
  -- with the canonical name and a version equal to the given one. The identifiers returned are those
  -- of all its advisories whose withdrawal is `null`, in their order, and every other advisory has a
  -- timestamp for its withdrawal.
  pub validate_response-Reports :
      (response : Json) (name : Text) (version : Version) (ids : List Text)
      → validate_response calls response name version ≡ ok ids
      → Reports response name version ids
  unfolding validate_response
  validate_response-Reports (object fields) name version ids h =
      let (_, e1, h1) =
        then_do-ok (check_info calls name version (get_field (codes "info") fields)) _ ids h in
      let (info, i, r) = object-check_info name version (get_field (codes "info") fields) e1 in
      let (advisories, v, l) =
        array-read_vulnerabilities (get_field (codes "vulnerabilities") fields) ids h1 in
      (fields, info, advisories, refl, i, v, r, l)
  validate_response-Reports null name version ids h = ground arith
  validate_response-Reports (boolean c) name version ids h = ground arith
  validate_response-Reports (number t) name version ids h = ground arith
  validate_response-Reports (string t) name version ids h = ground arith
  validate_response-Reports (array items) name version ids h = ground arith
