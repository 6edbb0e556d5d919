-- ===== src/Temporal.antt =====
-- SQL for dates and times: `_validate_timezone`, the `_extract_sql`, `_trunc_sql` and `_cast_` methods of
-- `DatabaseOperations` in src/django_pyturso/operations.py. A tuple of parameters is a list, and
-- `tuple(params) * 2` is its concatenation.
pub mod Rounds
pub mod Fragments
pub mod Pieces
pub mod Balance
use django_pyturso.Exec.{Answer, ok, raised, not_supported}
use django_pyturso.Prelude.{
  ℕ, Bool, true, false, not, ◌&&◌, ◌||◌, Option, none, some, List, [], ◌∷◌, ◌++◌, Text, codes,
  text_eq, contains, if◌then◌else◌,
}

-- `f"{before}{sql}{after}"`
unfoldable pub wrap : Text → Text → Text → Text
wrap before sql after = before ++ (sql ++ after)

-- `tzname not in (None, "UTC") or (tzname is not None and timezone_name != tzname)`, where
-- `timezone_name` is the connection's.
unfoldable pub refuses_timezone : Text → Option Text → Bool
unfolding text_eq
refuses_timezone timezone_name none = false
refuses_timezone timezone_name (some tzname) =
    not (text_eq tzname (codes "UTC")) || not (text_eq timezone_name tzname)

abbrev pub formats : List (Text × Text)
formats =
    (codes "year", codes "%%Y")
    ∷ (codes "iso_year", codes "%%G")
    ∷ (codes "month", codes "%%m")
    ∷ (codes "day", codes "%%d")
    ∷ (codes "week", codes "%%V")
    ∷ (codes "week_day", codes "%%w")
    ∷ (codes "iso_week_day", codes "%%u")
    ∷ (codes "hour", codes "%%H")
    ∷ (codes "minute", codes "%%M")
    ∷ (codes "second", codes "%%S")
    ∷ []

-- `formats[lookup_type]`
unfoldable pub get_format : Text → List (Text × Text) → Option Text
unfolding text_eq
get_format lookup_type [] = none
get_format lookup_type ((key, format) ∷ rest) =
    let later = get_format lookup_type rest in
    if text_eq lookup_type key then some format else later

abbrev pub extracted : Text → Text → Text
extracted format sql =
    wrap (codes "CAST(strftime('" ++ (format ++ codes "', ")) sql (codes ") AS INTEGER)")

abbrev pub extract_with : Text → Text → Option Text → Answer Text
extract_with lookup_type sql none = raised not_supported
extract_with lookup_type sql (some format) =
    if text_eq lookup_type (codes "week_day")
    then ok (wrap (codes "(") (extracted format sql) (codes " + 1)"))
    else ok (extracted format sql)

-- `_extract_sql`
unfoldable pub extract_sql : Text → Text → Answer Text
unfolding text_eq get_format
extract_sql lookup_type sql =
    if text_eq lookup_type (codes "quarter")
    then ok (wrap (codes "((CAST(strftime('%%m', ") sql (codes ") AS INTEGER) + 2) / 3)"))
    else extract_with lookup_type sql (get_format lookup_type formats)

-- The truncation to a quarter, which names the expression three times.
abbrev pub quarter_sql : Text → Text
quarter_sql sql = wrap (codes "CASE WHEN ") sql (
    wrap (codes " IS NULL THEN NULL ELSE printf('%%04d-%%02d-01', CAST(strftime('%%Y', ") sql (
      wrap (codes ") AS INTEGER), ((CAST(strftime('%%m', ") sql
        (codes ") AS INTEGER) - 1) / 3) * 3 + 1) END")))

abbrev pub week_sql : Text → Text
week_sql sql =
    wrap (codes "date(") sql
      (wrap (codes ", '-' || (CAST(strftime('%%u', ") sql (codes ") AS INTEGER) - 1) || ' days')"))

-- `_time_extension_input`
abbrev pub time_extension_input : Bool → Text → Text
time_extension_input true sql = wrap (codes "time_parse('1970-01-01T' || ") sql (codes " || 'Z')")
time_extension_input false sql =
    wrap (codes "time_parse(REPLACE(") sql (codes ", ' ', 'T') || 'Z')")

abbrev pub iso_format : Text → Text
iso_format sql = wrap (codes "RTRIM(REPLACE(time_fmt_iso(") sql (codes "), 'T', ' '), 'Z')")

-- `_format_time_extension`
abbrev pub format_time_extension : Bool → Text → Text
format_time_extension true sql = wrap (codes "SUBSTR(") (iso_format sql) (codes ", 12, 15)")
format_time_extension false sql = iso_format sql

-- `f"CASE WHEN {sql} IS NULL THEN NULL ELSE {result} END"`
abbrev pub unless_null : Text → Text → Text
unless_null sql result =
    wrap (codes "CASE WHEN ") sql (wrap (codes " IS NULL THEN NULL ELSE ") result (codes " END"))

-- `f"time_trunc({parsed}, '{lookup_type}')"`
abbrev pub time_trunc : Text → Text → Text
time_trunc lookup_type parsed =
    wrap (codes "time_trunc(") parsed (codes ", '" ++ (lookup_type ++ codes "')"))

abbrev pub datetime_lookups : List Text
datetime_lookups =
    codes "year"
    ∷ codes "quarter"
    ∷ codes "month"
    ∷ codes "day"
    ∷ codes "hour"
    ∷ codes "minute"
    ∷ codes "second"
    ∷ []

abbrev pub time_lookups : List Text
time_lookups = codes "hour" ∷ codes "minute" ∷ codes "second" ∷ []

abbrev pub Statement : Type 0 → Type 0
Statement P = Answer (Text × List P)

module _ {P : Type 0} where
  abbrev pub with_params : List P → Answer Text → Statement P
  with_params params (ok sql) = ok (sql, params)
  with_params params (raised x) = raised x

  -- The branches of `date_trunc_sql`, on a lookup type in lower case.
  unfoldable pub date_trunc : Text → Text → List P → Statement P
  unfolding text_eq
  date_trunc lookup_type sql params =
      if text_eq lookup_type (codes "year")
      then ok (wrap (codes "date(") sql (codes ", 'start of year')"), params)
      else if text_eq lookup_type (codes "quarter")
      then ok (quarter_sql sql, params ++ (params ++ params))
      else if text_eq lookup_type (codes "month")
      then ok (wrap (codes "date(") sql (codes ", 'start of month')"), params)
      else if text_eq lookup_type (codes "week")
      then ok (week_sql sql, params ++ params)
      else if text_eq lookup_type (codes "day")
      then ok (wrap (codes "date(") sql (codes ")"), params)
      else raised not_supported

  -- `f"{date_sql} || ' 00:00:00'", result_params`
  abbrev pub at_midnight : Statement P → Statement P
  at_midnight (ok (sql, params)) = ok (sql ++ codes " || ' 00:00:00'", params)
  at_midnight (raised x) = raised x

  -- The branches of `datetime_trunc_sql`.
  unfoldable pub datetime_trunc : Text → Text → List P → Statement P
  unfolding date_trunc text_eq contains
  datetime_trunc lookup_type sql params =
      if text_eq lookup_type (codes "week")
      then at_midnight (date_trunc (codes "week") sql params)
      else if contains lookup_type datetime_lookups
      then ok (
        unless_null sql
            (format_time_extension false (time_trunc lookup_type (time_extension_input false sql))),
        params ++ params,
      )
      else raised not_supported

  -- The branches of `time_trunc_sql`, where the expression may be a date and time.
  unfoldable pub time_trunc_sql : Text → Text → List P → Statement P
  unfolding contains
  time_trunc_sql lookup_type sql params =
      if contains lookup_type time_lookups
      then ok (
        unless_null sql (
            format_time_extension true (
              time_trunc lookup_type
                (time_extension_input true (wrap (codes "time(") sql (codes ")"))))),
        params ++ params,
      )
      else raised not_supported

-- A call of one of the methods: its name with the arguments that are not the SQL and its parameters.
pub data Request : Type 0 where
  date_extract time_extract : Text → Request
  datetime_extract date_truncation datetime_truncation time_truncation :
      Text → Option Text → Request
  cast_date cast_time : Option Text → Request

module _ {P : Type 0} (lower : Text → Text) (timezone_name : Text) where
  -- `self._validate_timezone(tzname)`, and what comes after it.
  abbrev pub in_timezone : Option Text → Statement P → Statement P
  in_timezone tzname result =
      if refuses_timezone timezone_name tzname then raised not_supported else result

  -- The method that is called, with `str.lower` as `lower`.
  unfoldable pub temporal_sql : Request → Text → List P → Statement P
  unfolding extract_sql date_trunc datetime_trunc time_trunc_sql refuses_timezone
  temporal_sql (date_extract lookup_type) sql params =
      with_params params (extract_sql (lower lookup_type) sql)
  temporal_sql (time_extract lookup_type) sql params =
      with_params params (extract_sql (lower lookup_type) sql)
  temporal_sql (datetime_extract lookup_type tzname) sql params =
      in_timezone tzname (with_params params (extract_sql (lower lookup_type) sql))
  temporal_sql (date_truncation lookup_type tzname) sql params =
      in_timezone tzname (date_trunc (lower lookup_type) sql params)
  temporal_sql (datetime_truncation lookup_type tzname) sql params =
      in_timezone tzname (datetime_trunc (lower lookup_type) sql params)
  temporal_sql (time_truncation lookup_type tzname) sql params =
      in_timezone tzname (time_trunc_sql (lower lookup_type) sql params)
  temporal_sql (cast_date tzname) sql params =
      in_timezone tzname (ok (wrap (codes "date(") sql (codes ")"), params))
  temporal_sql (cast_time tzname) sql params = in_timezone tzname (
      ok (
        unless_null sql (format_time_extension true (time_extension_input false sql)),
        params ++ params,
      ))
