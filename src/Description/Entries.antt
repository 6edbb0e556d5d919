-- ===== src/Description/Entries.antt =====
-- What `get_constraints` reports under each name.
use django_pyturso.Constraints.Table.{ConstraintDict}
use django_pyturso.Description.Assembly.{
  IndexRow, Entry, index_entry, set_entry, add_indexes, primary_entry, foreign_key_name, ForeignKey,
  target_of, read_foreign_key, add_foreign_keys, parsed_entries, get_constraints, or_else, if_named,
  index_named, answered, foreign_key_named, entry_named,
}
use django_pyturso.Exec.{ok, then_do-ok}
use django_pyturso.ForeignKeys.{resolve_foreign_key_target_columns}
use django_pyturso.Prelude.{
  ◌≡◌, refl, ◌∙◌, ap, sym, Option, none, some, List, [], ◌∷◌, Text, codes, text_eq, Dict, get_item,
  get_item-set_item, arith, Bool-cases, inl, inr, All,
}

get_item-set_entry :
    (name other : Text) (entry : Option Entry) (d : Dict Entry)
    → get_item name (set_entry other entry d)
      ≡ or_else (if_named name other entry) (get_item name d)
get_item-set_entry name other none d = elim (Bool-cases (text_eq other name)) [
  | inl e ↦ simp e refl
  | inr e ↦ simp e refl
]
get_item-set_entry name other (some entry) d = elim (Bool-cases (text_eq other name)) [
  | inl e ↦ ground (arith, get_item-set_item name other entry d, e)
  | inr e ↦ ground (arith, get_item-set_item name other entry d, e)
]

or_else_assoc : (a b c : Option Entry) → or_else (or_else a b) c ≡ or_else a (or_else b c)
or_else_assoc none b c = refl
or_else_assoc (some a) b c = refl

get_item-add_indexes :
    (name : Text) (rows : List IndexRow) (d : Dict Entry)
    → get_item name (add_indexes rows d) ≡ or_else (index_named name rows) (get_item name d)
unfolding add_indexes
get_item-add_indexes name [] d = refl
get_item-add_indexes name (row ∷ rows) d =
    get_item-add_indexes name rows (set_entry row.name (index_entry row) d)
    ∙ ap (or_else (index_named name rows)) (get_item-set_entry name row.name (index_entry row) d)
    ∙ sym (or_else_assoc (index_named name rows) _ _)

module _ (primary_keys : Text → List Text) where
  get_item-add_foreign_keys :
      (name : Text) (keys : List ForeignKey) (d result : Dict Entry)
      → add_foreign_keys primary_keys keys d ≡ ok result
      → get_item name result ≡ or_else (foreign_key_named primary_keys name keys) (get_item name d)
  unfolding add_foreign_keys
  get_item-add_foreign_keys name [] d result h = ground (arith, h)
  get_item-add_foreign_keys name ((id, rows) ∷ keys) d result h =
      let (entry, e, h1) = then_do-ok (read_foreign_key primary_keys rows) _ result h in
      get_item-add_foreign_keys name keys (set_entry (foreign_key_name id) entry d) result h1
      ∙ ap (or_else (foreign_key_named primary_keys name keys)) (
          get_item-set_entry name (foreign_key_name id) entry d
          ∙ ap (λ a. or_else (if_named name (foreign_key_name id) (answered a)) (get_item name d))
              (sym e))
      ∙ sym (or_else_assoc (foreign_key_named primary_keys name keys) _ _)

  -- The target columns of the foreign key can be resolved.
  abbrev pub Resolves : ForeignKey → Type 0
  Resolves key =
      (columns : List Text) × (resolve_foreign_key_target_columns (primary_keys (target_of key.1))
          key.1
        ≡ ok columns)

  add_foreign_keys-returns :
      (keys : List ForeignKey) (d : Dict Entry)
      → All Resolves keys
      → (result : Dict Entry) × (add_foreign_keys primary_keys keys d ≡ ok result)
  unfolding add_foreign_keys
  add_foreign_keys-returns [] d h = (d, refl)
  add_foreign_keys-returns ((id, rows) ∷ keys) d h = rw h.0.1 (add_foreign_keys-returns keys _ h.1)

  -- If the target columns of all foreign keys can be resolved, the dictionary of constraints is
  -- returned, and under each name it has the last foreign key of that name, or else the primary key,
  -- or else the last index of that name that has stored SQL, or else the constraint that was parsed
  -- from the stored statement. A name of none of these is not in it.
  pub get_item-get_constraints :
      (constraints : Dict ConstraintDict) (indexes : List IndexRow) (key : Option (List Text))
      (keys : List ForeignKey)
      → All Resolves keys
      → (result : Dict Entry) × (get_constraints primary_keys constraints indexes key keys
          ≡ ok result)
        × ((name : Text)
            → get_item name result ≡ entry_named primary_keys name constraints indexes key keys)
  unfolding get_constraints
  get_item-get_constraints constraints indexes key keys h =
      let indexed = add_indexes indexes (parsed_entries constraints) in
      let (result, e) =
        add_foreign_keys-returns keys (set_entry (codes "__primary__") (primary_entry key) indexed)
          h in
      (
        result,
        e,
        λ name.
            get_item-add_foreign_keys name keys _ result e
            ∙ ap (or_else (foreign_key_named primary_keys name keys)) (
                get_item-set_entry name (codes "__primary__") (primary_entry key) indexed
                ∙ ap (or_else (if_named name (codes "__primary__") (primary_entry key)))
                    (get_item-add_indexes name indexes (parsed_entries constraints))),
      )
