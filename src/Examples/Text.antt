-- ===== src/Examples/Text.antt =====
-- Placeholders and names.
use django_pyturso.Identifiers.{quote_name, unquote_identifier, quote_text, undouble, ends_with}
use django_pyturso.Identifiers.RoundTrip.{unquote_identifier-quote_name}
use django_pyturso.Placeholders.Named.{EndsKnown, convert_placeholders-EndsKnown}
use django_pyturso.Placeholders.Params.{mapping, sequence, bind_parameters}
use django_pyturso.Placeholders.Params.Binding.{
  BindsMapping, BindsSequence, bind_parameters-BindsMapping, bind_parameters-BindsSequence,
}
use django_pyturso.Placeholders.Positional.{IsPositional, convert_placeholders-IsPositional}
use django_pyturso.Placeholders.Quoting.{reading, quoting, scan-quote_name, scan-quote_text}
use django_pyturso.Placeholders.Termination.{scan}
use django_pyturso.Placeholders.Verbatim.{IsUnchanged, convert_placeholders-IsUnchanged}
use django_pyturso.Placeholders.{initial, sql, bindings, missing, convert_placeholders}
use django_pyturso.Prelude.{ℕ, ◌≡◌, refl, ◌++◌, false, none, some, List, [], ◌∷◌, Text, codes}

abbrev query : Text
query = codes "SELECT \"a%s\", '%s%%' FROM t WHERE x = %s -- %s"

convert_query :
    convert_placeholders query none
    ≡ bindings (record {
      query = codes "SELECT \"a%s\", '%s%' FROM t WHERE x = ? -- %s";
      positional_count = 1;
      required_names = [];
      native_bindings = false;
    })
unfolding convert_placeholders
convert_query = refl

abbrev named_query : Text
named_query = codes "x = %(id)s AND y = %(id)d"

convert_named_query :
    convert_placeholders named_query (some (codes "id" ∷ []))
    ≡ bindings (record {
      query = codes "x = :id AND y = %(id)d";
      positional_count = 0;
      required_names = codes "id" ∷ [];
      native_bindings = false;
    })
unfolding convert_placeholders
convert_named_query = refl

convert_foreign_name : convert_placeholders named_query (some []) ≡ missing (codes "id")
unfolding convert_placeholders
convert_foreign_name = refl

convert_placeholders-IsPositional_example : IsPositional query (convert_placeholders query none)
convert_placeholders-IsPositional_example = convert_placeholders-IsPositional query

convert_placeholders-EndsKnown_example :
    EndsKnown (codes "id" ∷ []) (convert_placeholders named_query (some (codes "id" ∷ [])))
convert_placeholders-EndsKnown_example =
    convert_placeholders-EndsKnown (codes "id" ∷ []) named_query

convert_placeholders-IsUnchanged_example :
    IsUnchanged (codes "SELECT 'a'") (convert_placeholders (codes "SELECT 'a'") none)
convert_placeholders-IsUnchanged_example =
    convert_placeholders-IsUnchanged none (codes "SELECT 'a'") refl

bind_parameters-BindsSequence_example :
    BindsSequence {V = ℕ} query (7 ∷ []) (bind_parameters query (sequence (7 ∷ [])))
bind_parameters-BindsSequence_example = bind_parameters-BindsSequence {V = ℕ} query (7 ∷ [])

abbrev values : List (Text × ℕ)
values = (codes "id", 7) ∷ []

bind_parameters-BindsMapping_example :
    BindsMapping values (bind_parameters named_query (mapping values))
bind_parameters-BindsMapping_example = bind_parameters-BindsMapping named_query values

abbrev odd_name : Text
odd_name = codes "50%s \"off\""

scan-quote_name_example :
    scan none initial (quote_name odd_name ++ codes " = %s")
    ≡ scan none (reading (quoting initial) (quote_name odd_name) sql) (codes " = %s")
unfolding ends_with
scan-quote_name_example = scan-quote_name none initial odd_name (codes " = %s") refl refl refl

scan-quote_text_example :
    scan none initial (quote_text (codes "5%% o'clock") ++ codes ", %s")
    ≡ scan none
        (reading initial (quote_text (undouble b'%' (codes "5%% o'clock"))) sql)
        (codes ", %s")
scan-quote_text_example =
    scan-quote_text none initial (codes "5%% o'clock") (codes ", %s") refl refl

unquote_identifier-quote_name_example : unquote_identifier (quote_name odd_name) ≡ odd_name
unfolding ends_with
unquote_identifier-quote_name_example = unquote_identifier-quote_name odd_name refl
