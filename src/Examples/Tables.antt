-- ===== src/Examples/Tables.antt =====
-- A table that is remade.
use django_pyturso.Exec.{Answer, ok, raised}
use django_pyturso.Identifiers.{quote_name}
use django_pyturso.Prelude.{
  ◌≡◌, refl, true, false, none, some, [], ◌∷◌, Text, codes, text_eq, Dict, set_item, pop_item,
  Option, if◌then◌else◌, ℕ,
}
use django_pyturso.Remake.Data.{Copies, plan_copying-Copies}
use django_pyturso.Remake.Plan.{Moves, plan_copying-Moves}
use django_pyturso.Remake.Steps.{TableCalls, Replacement, insert_sql, remake_with}
use django_pyturso.Remake.{Field, Model, Defaults, Copying, plan_copying}

abbrev id_field : Field
id_field = record {
  name = codes "id";
  attname = codes "id";
  column = some (codes "id");
  primary_key = true;
  auto_created = true;
  generated = false;
  has_db_default = false;
  concrete = true;
  null = false;
  unique = true;
  db_index = false;
  has_db_constraint = false;
  many_to_many = false;
  through_auto_created = false;
  is_composite = false;
  has_type = true;
}

abbrev plain_field : Text → Field
plain_field t = record id_field {
  name = t;
  attname = t;
  column = some t;
  primary_key = false;
  auto_created = false;
  unique = false;
}

abbrev nullable_field : Text → Field
nullable_field t = record (plain_field t) { null = true }

abbrev book : Model
book = record {
  db_table = codes "book";
  local_concrete_fields = id_field ∷ nullable_field (codes "title") ∷ plain_field (codes "x") ∷ [];
  composite_key = none;
  unique_together = [];
  indexes = [];
  constraints = [];
}

abbrev empty_default : Defaults
empty_default = record {
  default_sql = λ field. ok (codes "''");
  db_default_sql = λ field. ok (codes "0");
}

plan_copying-Copies_example : Copies (codes "x") (some (quote_name (codes "x"))) (
    plan_copying empty_default book
      (some (plain_field (codes "y")))
      none
      ((nullable_field (codes "title"), plain_field (codes "name")) ∷ []))
unfolding text_eq
plan_copying-Copies_example =
    plan_copying-Copies empty_default book (some (plain_field (codes "y"))) none
      ((nullable_field (codes "title"), plain_field (codes "name")) ∷ []) (codes "x") refl refl refl
      refl refl

plan_copying-Moves_example :
    Moves empty_default
      (nullable_field (codes "title"))
      (plain_field (codes "name"))
      (codes "name")
      (codes "title")
      (plan_copying empty_default book none none
        ((nullable_field (codes "title"), plain_field (codes "name")) ∷ []))
plan_copying-Moves_example =
    plan_copying-Moves empty_default (nullable_field (codes "title")) (plain_field (codes "name"))
      book (codes "name") (codes "title") refl refl refl

abbrev mapping_of : Answer Copying → Dict Text
mapping_of (ok copying) = copying.mapping
mapping_of (raised x) = []

narrowed_title :
    mapping_of (
      plan_copying empty_default book none none
        ((nullable_field (codes "title"), plain_field (codes "name")) ∷ []))
    ≡ (codes "id", codes "\"id\"")
      ∷ (codes "x", codes "\"x\"")
      ∷ (codes "name", codes "coalesce(\"title\", '')")
      ∷ []
unfolding plan_copying text_eq set_item pop_item
narrowed_title = refl

abbrev new_book : Replacement
new_book = record {
  db_table = codes "new__book";
  body = [];
  unique_together = [];
  indexes = [];
  constraints = [];
  without_auto_key = false;
}

abbrev title_copying : Copying
title_copying = record {
  body = [];
  mapping = (codes "title", codes "\"title\"") ∷ [];
  rename_mapping = [];
}

abbrev copy_books : Text
copy_books = insert_sql (codes "new__book") (codes "book") title_copying.mapping

abbrev drop_book : Text
drop_book = codes "DROP TABLE \"book\""

-- The rows of the table and of its replacement, where a table may be missing.
abbrev Shelf : Type 0
Shelf = Option ℕ × Option ℕ

abbrev run_on_shelf : Text → Shelf → Shelf
run_on_shelf sql d =
    if text_eq sql copy_books then (d.0, d.0) else if text_eq sql drop_book then (none, d.1) else d

abbrev shelf_calls : TableCalls
shelf_calls = record {
  D = Shelf;
  Sql = Text;
  is_statement = λ sql. false;
  references_table = λ sql table. false;
  strip_quotes = λ t. t;
  key_attname = λ body. codes "id";
  create_model = λ new s. (ok tt, (s.0, (s.1.0, some 0)));
  alter_db_table = λ old new s. (ok tt, (s.0, (s.1.1, none)));
  delete_through = λ field s. (ok tt, s);
  execute = λ sql d. (ok tt, run_on_shelf sql d);
  execute_deferred = λ sql d. (ok tt, d);
  rename_references = λ table old new sql. sql;
}

abbrev rows_on_shelf : Text → Shelf → Option ℕ
rows_on_shelf t d =
    if text_eq (codes "book") t then d.0 else if text_eq (codes "new__book") t then d.1 else none

remade :
    (remake_with shelf_calls book new_book title_copying ([], (some 7, none))).1.1 ≡ (some 7, none)
unfolding remake_with text_eq insert_sql quote_name
remade = refl
