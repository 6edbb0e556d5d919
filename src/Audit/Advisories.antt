-- ===== src/Audit/Advisories.antt =====
-- What `read_advisories` says of the advisories of a response.
use django_pyturso.Audit.Timestamps.{is_timestamp}
use django_pyturso.Audit.{
  Json, null, boolean, number, string, array, object, Items, empty_array, item, Fields, get_field,
  has_field, advisory_strings, AuditCalls, check_versions, read_identifier, read_withdrawn,
  read_advisory, finish_advisory, with_state, add_active, read_advisories,
}
use mathlib.Core.Path.{subst}
use django_pyturso.Exec.{ok, then_do-ok}
use django_pyturso.Prelude.{
  ◌≡◌, refl, ap, ◌∙◌, sym, Bool, true, false, List, [], ◌∷◌, Text, codes, Bool-cases, inl, inr,
  arith,
}

-- The identifiers of the advisories that are active: each advisory of the response is an object
-- with an identifier, and it is active with `null` for its withdrawal, or withdrawn at a timestamp.
pub data Lists : Items → List Text → Type 0 where
  no_advisories : Lists empty_array []
  active :
      (fields : Fields) (items : Items) (id : Text) (ids : List Text)
      → get_field (codes "id") fields ≡ string id
      → has_field (codes "withdrawn") fields ≡ true
      → get_field (codes "withdrawn") fields ≡ null
      → Lists items ids
      → Lists (item (object fields) items) (id ∷ ids)
  withdrawn :
      (fields : Fields) (items : Items) (t : Text) (ids : List Text)
      → get_field (codes "withdrawn") fields ≡ string t
      → is_timestamp t ≡ true
      → Lists items ids
      → Lists (item (object fields) items) ids

module _ (calls : AuditCalls) where
  open calls use {Version, canonicalize_name, parse_version, same_version, from_iso_format}

  -- What is read of one advisory.
  abbrev Read : Json → Text → Bool → Type 0
  Read a id b =
      (fields : Fields) × (a ≡ object fields)
      × (get_field (codes "id") fields ≡ string id)
      × (has_field (codes "withdrawn") fields ≡ true)
      × (read_withdrawn calls (get_field (codes "withdrawn") fields) ≡ ok b)

  read_identifier-string : (j : Json) (id : Text) → read_identifier calls j ≡ ok id → j ≡ string id
  read_identifier-string null id h = ground arith
  read_identifier-string (boolean b) id h = ground arith
  read_identifier-string (number t) id h = ground arith
  read_identifier-string (string []) id h = ground arith
  read_identifier-string (string (c ∷ t)) id h = ground (arith, h)
  read_identifier-string (array items) id h = ground arith
  read_identifier-string (object fields) id h = ground arith

  finish_advisory-ok :
      (fields : Fields) (id id' : Text) (b : Bool)
      → finish_advisory calls id' fields ≡ ok (id, b)
      → (has_field (codes "withdrawn") fields ≡ true)
        × (read_withdrawn calls (get_field (codes "withdrawn") fields) ≡ ok b)
        × (id' ≡ id)
  finish_advisory-ok fields id id' b h = elim (Bool-cases (has_field (codes "withdrawn") fields)) [
    | inr e ↦ ground (arith, h, e)
    | inl e ↦
        let (b', e2, h2) =
          then_do-ok (read_withdrawn calls (get_field (codes "withdrawn") fields))
            (with_state calls id') (id, b) (ground (arith, h, e)) in
        (e, ground (arith, e2, h2), ground (arith, h2))
  ]

  read_advisory-Read :
      (a : Json) (id : Text) (b : Bool) → read_advisory calls a ≡ ok (id, b) → Read a id b
  unfolding read_advisory
  read_advisory-Read (object fields) id b h =
      let (id', e1, h1) =
        then_do-ok (read_identifier calls (get_field (codes "id") fields)) _ _ h in
      let (_, _, h2) = then_do-ok (advisory_strings (get_field (codes "aliases") fields)) _ _ h1 in
      let (versions, _, h3) =
        then_do-ok (advisory_strings (get_field (codes "fixed_in") fields)) _ _ h2 in
      let (_, _, h4) = then_do-ok (check_versions calls versions) _ _ h3 in
      let (e5, e6, same) = finish_advisory-ok fields id id' b h4 in
      (
        fields,
        refl,
        read_identifier-string (get_field (codes "id") fields) id' e1 ∙ ap string same,
        e5,
        e6,
      )
  read_advisory-Read null id b h = ground arith
  read_advisory-Read (boolean c) id b h = ground arith
  read_advisory-Read (number t) id b h = ground arith
  read_advisory-Read (string t) id b h = ground arith
  read_advisory-Read (array items) id b h = ground arith

  read_withdrawn-null : (j : Json) → read_withdrawn calls j ≡ ok true → j ≡ null
  read_withdrawn-null null h = refl
  read_withdrawn-null (boolean b) h = ground arith
  read_withdrawn-null (number t) h = ground arith
  read_withdrawn-null (string t) h = elim (Bool-cases (is_timestamp t)) [
    | inr e ↦ ground (arith, h, e)
    | inl e ↦
        let (_, _, q) =
          then_do-ok (from_iso_format t) (λ _. ok false) true (ground (arith, h, e)) in
        ground (arith, q)
  ]
  read_withdrawn-null (array items) h = ground arith
  read_withdrawn-null (object fields) h = ground arith

  read_withdrawn-string :
      (j : Json)
      → read_withdrawn calls j ≡ ok false
      → (t : Text) × (j ≡ string t) × (is_timestamp t ≡ true)
  read_withdrawn-string null h = ground arith
  read_withdrawn-string (boolean b) h = ground arith
  read_withdrawn-string (number t) h = ground arith
  read_withdrawn-string (string t) h = elim (Bool-cases (is_timestamp t)) [
    | inr e ↦ ground (arith, h, e)
    | inl e ↦ (t, refl, e)
  ]
  read_withdrawn-string (array items) h = ground arith
  read_withdrawn-string (object fields) h = ground arith

  add_active-Lists :
      (a : Json) (items : Items) (id : Text) (b : Bool) (ids : List Text)
      → Read a id b
      → Lists items ids
      → Lists (item a items) (add_active calls (id, b) ids)
  add_active-Lists a items id true ids (fields, e, i, w, r) l =
      subst (λ x. Lists (item x items) (id ∷ ids)) (sym e)
        (active fields items id ids i w
          (read_withdrawn-null (get_field (codes "withdrawn") fields) r) l)
  add_active-Lists a items id false ids (fields, e, i, w, r) l =
      let (t, q, m) = read_withdrawn-string (get_field (codes "withdrawn") fields) r in
      subst (λ x. Lists (item x items) ids) (sym e) (withdrawn fields items t ids q m l)

  pub read_advisories-Lists :
      (items : Items) (ids : List Text) → read_advisories calls items ≡ ok ids → Lists items ids
  unfolding read_advisories
  read_advisories-Lists empty_array ids h =
      subst (Lists empty_array) (ground (arith, h)) no_advisories
  read_advisories-Lists (item a items) ids h =
      let ((id, b), e1, h1) = then_do-ok (read_advisory calls a) _ ids h in
      let (rest, e2, h2) =
        then_do-ok (read_advisories calls items) (λ active. ok (add_active calls (id, b) active))
          ids h1 in
      subst (Lists (item a items)) (ground (arith, h2)) (
        add_active-Lists a items id b rest (read_advisory-Read a id b e1)
          (read_advisories-Lists items rest e2))
