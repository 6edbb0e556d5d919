-- ===== src/Audit/Complete.antt =====
-- Responses that `_validate_response` accepts.
use django_pyturso.Audit.Timestamps.{is_timestamp}
use django_pyturso.Audit.{
  Fields, add_active, Json, null, string, array, object, Items, empty_array, item, get_field,
  has_field, read_strings, advisory_strings, is_text_empty, AuditCalls, check_versions, has_space,
  read_identifier, read_withdrawn, read_advisory, read_advisories, validate_response,
}
use django_pyturso.Exec.{ok}
use django_pyturso.Prelude.{
  ◌≡◌, refl, ap, Bool, true, false, Option, none, some, List, [], ◌∷◌, Text, codes, text_eq_refl,
  All, arith,
}

pub record Advisory : Type 0 where
  pub id : Text
  pub aliases : List Text
  pub fixed_in : List Text
  pub withdrawn : Option Text

abbrev pub strings : List Text → Items
strings [] = empty_array
strings (t ∷ ts) = item (string t) (strings ts)

abbrev pub withdrawal : Option Text → Json
withdrawal none = null
withdrawal (some t) = string t

-- The object states the advisory: it has the four fields, in any order and beside any others.
abbrev pub States : Json → Advisory → Type 0
States j a =
    (fields : Fields) × (j ≡ object fields)
    × (get_field (codes "id") fields ≡ string a.id)
    × (get_field (codes "aliases") fields ≡ array (strings a.aliases))
    × (get_field (codes "fixed_in") fields ≡ array (strings a.fixed_in))
    × (has_field (codes "withdrawn") fields ≡ true)
    × (get_field (codes "withdrawn") fields ≡ withdrawal a.withdrawn)

-- The items state the advisories, one each and in their order.
abbrev pub StatesAll : Items → List Advisory → Type 0
StatesAll empty_array [] = Unit
StatesAll (item j items) (a ∷ advisories) = States j a × StatesAll items advisories
StatesAll _ _ = ⊥

-- The response is an object, and has these strings for the release and these items for its
-- vulnerabilities, beside any other fields.
abbrev pub HasRelease : Json → Text → Text → Items → Type 0
HasRelease response release_name release_version items =
    (fields : Fields) × (info : Fields) × (response ≡ object fields)
    × (get_field (codes "info") fields ≡ object info)
    × (get_field (codes "name") info ≡ string release_name)
    × (get_field (codes "version") info ≡ string release_version)
    × (get_field (codes "vulnerabilities") fields ≡ array items)

abbrev pub unless_withdrawn : Option Text → Text → List Text → List Text
unless_withdrawn none id ids = id ∷ ids
unless_withdrawn (some _) id ids = ids

-- The identifiers of the advisories that are not withdrawn.
abbrev pub active_ids : List Advisory → List Text
active_ids [] = []
active_ids (a ∷ advisories) = unless_withdrawn a.withdrawn a.id (active_ids advisories)

module _ (calls : AuditCalls) where
  open calls use {Version, canonicalize_name, parse_version, same_version, from_iso_format}

  abbrev pub IsNonEmpty : Text → Type 0
  IsNonEmpty t = is_text_empty t ≡ false

  abbrev pub IsVersion : Text → Type 0
  IsVersion t = IsNonEmpty t × ((version : Version) × (parse_version t ≡ ok version))

  abbrev pub IsWithdrawal : Option Text → Type 0
  IsWithdrawal none = Unit
  IsWithdrawal (some t) = (is_timestamp t ≡ true) × (from_iso_format t ≡ ok tt)

  -- An identifier without blanks, texts that are not empty, versions, and a withdrawal at a timestamp.
  abbrev pub IsValid : Advisory → Type 0
  IsValid a =
      IsNonEmpty a.id
      × (has_space calls a.id ≡ false)
      × All IsNonEmpty a.aliases
      × All IsVersion a.fixed_in
      × IsWithdrawal a.withdrawn

  read_strings-strings : (ts : List Text) → All IsNonEmpty ts → read_strings (strings ts) ≡ ok ts
  unfolding read_strings
  read_strings-strings [] h = refl
  read_strings-strings ([] ∷ ts) h = ground (arith, h.0)
  read_strings-strings ((c ∷ t) ∷ ts) h = rw (read_strings-strings ts h.1) refl

  nonempty_versions : (ts : List Text) → All IsVersion ts → All IsNonEmpty ts
  nonempty_versions [] h = tt
  nonempty_versions (t ∷ ts) h = (h.0.0, nonempty_versions ts h.1)

  check_versions-ok : (ts : List Text) → All IsVersion ts → check_versions calls ts ≡ ok tt
  unfolding check_versions
  check_versions-ok [] h = refl
  check_versions-ok (t ∷ ts) h = rw h.0.1.1 (check_versions-ok ts h.1)

  read_identifier-ok :
      (t : Text)
      → IsNonEmpty t
      → has_space calls t ≡ false
      → read_identifier calls (string t) ≡ ok t
  read_identifier-ok [] h k = ground (arith, h)
  read_identifier-ok (c ∷ t) h k = simp k refl

  abbrev is_active : Option Text → Bool
  is_active none = true
  is_active (some _) = false

  read_withdrawn-ok :
      (o : Option Text) → IsWithdrawal o → read_withdrawn calls (withdrawal o) ≡ ok (is_active o)
  read_withdrawn-ok none h = refl
  read_withdrawn-ok (some t) h = rw (h.0, h.1) refl

  read_advisory-ok :
      (j : Json) (a : Advisory)
      → States j a
      → IsValid a
      → read_advisory calls j ≡ ok (a.id, is_active a.withdrawn)
  unfolding read_advisory advisory_strings
  read_advisory-ok j a (fields, e, e1, e2, e3, e4, e5) (i, s, l, v, w) =
      rw
        (
          e,
          e1,
          read_identifier-ok a.id i s,
          e2,
          read_strings-strings a.aliases l,
          e3,
          read_strings-strings a.fixed_in (nonempty_versions a.fixed_in v),
          check_versions-ok a.fixed_in v,
          e4,
          e5,
          read_withdrawn-ok a.withdrawn w,
        )
        refl

  add_active-is_active :
      (o : Option Text) (id : Text) (ids : List Text)
      → add_active calls (id, is_active o) ids ≡ unless_withdrawn o id ids
  add_active-is_active none id ids = refl
  add_active-is_active (some t) id ids = refl

  read_advisories-ok :
      (items : Items) (advisories : List Advisory)
      → StatesAll items advisories
      → All IsValid advisories
      → read_advisories calls items ≡ ok (active_ids advisories)
  unfolding read_advisories
  read_advisories-ok empty_array [] t h = refl
  read_advisories-ok empty_array (a ∷ advisories) t h = absurd t
  read_advisories-ok (item j items) [] t h = absurd t
  read_advisories-ok (item j items) (a ∷ advisories) t h =
      rw (read_advisory-ok j a t.0 h.0, read_advisories-ok items advisories t.1 h.1)
        (ap ok (add_active-is_active a.withdrawn a.id (active_ids advisories)))

  -- A response for the release, with its canonical name and a version equal to the one asked for, and
  -- with valid advisories, is accepted, whatever other fields the response, the release and the
  -- advisories have. The identifiers returned are those of the advisories that are not withdrawn, in
  -- their order.
  pub validate_response-active_ids :
      (response : Json) (release_name release_version name : Text) (version answered : Version)
      (items : Items) (advisories : List Advisory)
      → HasRelease response release_name release_version items
      → canonicalize_name release_name ≡ ok name
      → parse_version release_version ≡ ok answered
      → same_version answered version ≡ true
      → StatesAll items advisories
      → All IsValid advisories
      → validate_response calls response name version ≡ ok (active_ids advisories)
  unfolding validate_response
  validate_response-active_ids response r v name version answered items advisories
        (fields, info, e, e1, e2, e3, e4) c p s t h =
      rw (e, e1, e2, e3, c, text_eq_refl name, p, s, e4) (read_advisories-ok items advisories t h)
