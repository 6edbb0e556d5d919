-- ===== src/Remake/Decisions.antt =====
-- Which change the schema editor makes: `add_field`, `remove_field`, `_alter_field`,
-- `add_constraint` and `remove_constraint` in src/django_pyturso/schema.py.
use django_pyturso.Prelude.{
  Bool, true, false, not, ◌&&◌, ◌||◌, Option, none, some, List, [], ◌∷◌, ◌++◌, Text, text_eq,
  contains, if◌then◌else◌, ◌≡◌, ◌↔◌, arith,
}
use django_pyturso.Remake.{Field}

pub data Change : Type 0 where
  no_change create_through delete_through remake drop_column rename by_django : Change

-- `add_field`
unfoldable pub add_field : Field → Change
add_field field =
    if field.many_to_many && field.through_auto_created
    then create_through
    else if field.is_composite
    then no_change
    else remake

-- `remove_field`. The field is a relation with a constraint in the database if `has_db_constraint`.
unfoldable pub remove_field : Bool → Field → Change
remove_field can_alter_table_drop_column field =
    if field.many_to_many
    then (if field.through_auto_created then delete_through else no_change)
    else if can_alter_table_drop_column
        && not field.primary_key
        && not field.unique
        && not field.db_index
        && not field.has_db_constraint
    then drop_column
    else if field.has_type
    then remake
    else no_change

-- What `_alter_field` compares of the two fields.
pub record Comparison : Type 0 where
  pub same_column : Bool
  pub same_index : Bool
  pub same_column_sql : Bool
  pub same_type : Bool
  pub same_collation : Bool

-- `_alter_field`: a column is renamed in place, or the table is remade.
unfoldable pub alter_field : Comparison → Field → Field → Change
alter_field c old new =
    if not c.same_column
      && c.same_index
      && c.same_column_sql
      && not (old.has_db_constraint || new.has_db_constraint)
    then rename
    else remake

-- Whether the models that refer to the field are remade too.
unfoldable pub remakes_related : Comparison → Field → Bool
remakes_related c new = new.unique && (not c.same_type || not c.same_collation || not c.same_column)

-- A relation to the model: from another field, or through a many-to-many table.
pub record Related : Type 0 where
  pub related_model : Text
  pub many_to_many : Bool
  pub field_name : Text
  pub through : Option Text
  pub through_auto_created : Bool

-- `related_models.add(…)`
abbrev pub add_model : Text → List Text → List Text
add_model model models = if contains model models then models else models ++ model ∷ []

abbrev pub add_through : Bool → Option Text → List Text → List Text
add_through automatic none models = models
add_through automatic (some through) models = if automatic then add_model through models else models

-- The round for one of `opts.related_objects`.
abbrev pub add_object : Text → Field → Related → List Text → List Text
add_object model new remote models =
    if text_eq remote.related_model model
    then models
    else if not remote.many_to_many
    then (if text_eq remote.field_name new.name
        then add_model remote.related_model models
        else models)
    else if new.primary_key
    then add_through remote.through_auto_created remote.through models
    else models

unfoldable pub add_objects : Text → Field → List Related → List Text → List Text
unfolding contains text_eq
add_objects model new [] models = models
add_objects model new (remote ∷ remotes) models =
    add_objects model new remotes (add_object model new remote models)

-- The round for one of `opts.many_to_many`.
abbrev pub add_many : Text → Related → List Text → List Text
add_many model field models =
    if text_eq field.related_model model
    then models
    else add_through field.through_auto_created field.through models

unfoldable pub add_manys : Text → List Related → List Text → List Text
unfolding contains text_eq
add_manys model [] models = models
add_manys model (field ∷ fields) models = add_manys model fields (add_many model field models)

-- The set of models that are remade after a unique field was altered.
unfoldable pub related_models : Text → Field → List Related → List Related → List Text
unfolding add_objects add_manys
related_models model new related_objects many_to_many =
    let objects = add_objects model new related_objects [] in
    if new.primary_key then add_manys model many_to_many objects else objects

-- `add_constraint` and `remove_constraint`: a `UniqueConstraint` that is an index of its own is left
-- to Django, any other constraint is in the table.
pub record Constraint : Type 0 where
  pub is_unique : Bool
  pub has_condition : Bool
  pub contains_expressions : Bool
  pub has_include : Bool
  pub has_deferrable : Bool

unfoldable pub is_own_index : Constraint → Bool
is_own_index c =
    c.is_unique && (c.has_condition || c.contains_expressions || c.has_include || c.has_deferrable)

unfoldable pub change_constraint : Constraint → Change
unfolding is_own_index
change_constraint c = if is_own_index c then by_django else remake

-- A column is dropped or renamed in place only where nothing in the stored table depends on it: it is
-- no key, neither unique nor indexed, and has no constraint of a relation; for a renaming, none
-- before and none after.
change_in_place :
    (c : Comparison) (old new : Field) (can_drop : Bool)
    → (remove_field can_drop old ≡ drop_column
        → (old.primary_key ≡ false)
          × (old.unique ≡ false)
          × (old.db_index ≡ false)
          × (old.has_db_constraint ≡ false)
          × (can_drop ≡ true))
      × ((alter_field c old new ≡ rename) ↔ (
          (c.same_column ≡ false)
          × (c.same_index ≡ true)
          × (c.same_column_sql ≡ true)
          × (old.has_db_constraint ≡ false)
          × (new.has_db_constraint ≡ false)))
unfolding remove_field alter_field
change_in_place c old new can_drop = (λ h. ground arith, (λ h. ground arith, λ h. ground arith))
