-- ===== src/Cursor.antt =====
-- `TursoCursorWrapper` of src/django_pyturso/base.py.
pub mod Guard
pub mod Buffer
pub mod Aborted
use django_pyturso.Connection.{Wrapper, Calls, ensure_transaction}
use django_pyturso.Exec.{
  Exc, driver, interrupt, type_error, value_error, Answer, ok, raised, Exec, pure, raise, lift,
  ◌>>=◌, ◌>>◌, catch, handle, modify,
}
use django_pyturso.Placeholders.{
  QueryBindings, Converted, bindings, missing, out_of_fuel, convert_placeholders,
}
use mathlib.Core.Option
use django_pyturso.Placeholders.Params.{
  BindError, mapping_required, sequence_required, no_fuel, key_error, wrong_count, Bound, Params,
  bind_parameters, param_names, validated_rows,
}
use django_pyturso.Prelude.{
  ℕ, Bool, true, false, ◌&&◌, Option, none, some, List, [], ◌∷◌, Text, take, drop, if◌then◌else◌,
}

-- What the driver's fetch methods return as a row: a tuple, or a value of another type.
pub data Item (R : Type 0) : Type 0 where
  tuple : R → Item R
  other : Item R

-- A Python integer: `negative n` is -(n + 1).
pub data Size : Type 0 where
  natural negative : ℕ → Size

-- The calls on the driver's cursor, whose state is part of the connection's, and the statement
-- test. `run` is `Database.Cursor.execute`; `run_many` is `executemany` on a generator, given by its
-- rows and the exception that ends it; `has_description` tells `description is not None`.
pub record CursorCalls : Type 1 where
  pub calls : Calls
  pub R : Type 0
  pub V : Type 0
  pub run : Text → Option (Params V) → calls.E → Answer (Unit {0}) × calls.E
  pub run_many : Text → List (Params V) → Option Exc → calls.E → Answer (Unit {0}) × calls.E
  pub has_description : calls.E → Bool
  pub driver_fetchone : calls.E → Answer (Option (Item R)) × calls.E
  pub driver_fetchmany : Option Size → calls.E → Answer (List (Item R)) × calls.E
  pub driver_fetchall : calls.E → Answer (List (Item R)) × calls.E
  pub is_write_statement : Text → Bool

-- A cursor with its wrapper. `_returning_rows` holds the rows of a completed write.
pub record Session (E R : Type 0) : Type 0 where
  pub wrapper : Wrapper E
  pub returning_rows : Option (List R)
  pub arraysize : Size

-- The exception that a failure to bind is: `ProgrammingError` is a `Database.Error`, `KeyError`
-- is not.
abbrev pub bind_exception : BindError → Exc
bind_exception mapping_required = driver 1
bind_exception sequence_required = driver 2
bind_exception (wrong_count expected supplied) = driver 3
bind_exception (key_error name) = interrupt 1
bind_exception no_fuel = interrupt 2

-- `_tuple_row`
abbrev pub tuple_row {ℓ} : {S : Type ℓ} {R : Type 0} → Item R → S → Answer R × S
tuple_row (tuple row) s = (ok row, s)
tuple_row other s = (raised type_error, s)

-- `_tuple_rows`
unfoldable pub tuple_rows : {R : Type 0} → List (Item R) → Answer (List R)
tuple_rows [] = ok []
tuple_rows (other ∷ items) = raised type_error
tuple_rows (tuple row ∷ items) = elim (tuple_rows items) [
  | ok rows ↦ ok (row ∷ rows)
  | raised e ↦ raised e
]

module _ (driver_calls : CursorCalls) where
  open driver_calls use {
    calls, R, V, run, run_many, has_description, driver_fetchone, driver_fetchmany, driver_fetchall,
    is_write_statement,
  }
  open calls use {E, in_transaction, validate_no_broken_transaction}

  abbrev pub Call : Type 0 → Type 0
  Call A = Exec (Session E R) A

  -- A method of the wrapper, called from the cursor.
  abbrev pub on_wrapper : {A : Type 0} → Exec (Wrapper E) A → Call A
  on_wrapper m s = let (r, w) = m s.wrapper in (r, record s { wrapper = w })

  -- A call on the driver's cursor. The connection of a cursor in use is open.
  unfoldable pub on_driver : {A : Type 0} → (E → Answer A × E) → Option E → Call A
  on_driver f none s = (raised (interrupt 0), s)
  on_driver f (some e) s =
      let (r, e') = f e in (r, record s { wrapper = record s.wrapper { connection = some e' } })

  abbrev pub call_driver : {A : Type 0} → (E → Answer A × E) → Call A
  call_driver f s = on_driver f s.wrapper.connection s

  abbrev pub mark : Exc → Session E R → Session E R
  mark error s = record s {
    wrapper = record s.wrapper {
      needs_rollback = true;
      rollback_exc = some error;
      run_on_commit = [];
    };
  }

  -- `except Database.Error`, on the state of the connection.
  unfoldable pub after_error : {A : Type 0} → Exc → Option E → Call A
  after_error error none s = (raised error, s)
  after_error error (some e) s =
      if s.wrapper.in_atomic_block
      then elim (in_transaction e) [
        | ok true ↦ (raised error, s)
        | ok false ↦ (raised error, mark error s)
        | raised x ↦ (raised x, s)
      ]
      else (raised error, s)

  unfoldable pub on_error : {A : Type 0} → Exc → Call A
  unfolding after_error
  on_error (driver n) s = after_error (driver n) s.wrapper.connection s
  on_error x s = (raised x, s)

  -- `_django_transaction`, round the body of its `with` block.
  unfoldable pub django_transaction : {A : Type 0} → Call A → Call A
  unfolding on_error ensure_transaction
  django_transaction body = do
    λ s. lift (validate_no_broken_transaction s.wrapper) s
    on_wrapper (ensure_transaction calls)
    catch body on_error

  -- The driver's call of `execute`.
  unfoldable pub send : Text → Option (Params V) → Call (Unit {0})
  unfolding on_driver bind_parameters
  send query none = call_driver (run query none)
  send query (some params) = elim (bind_parameters query params) [
    | Bound.ok (b, prepared) ↦ call_driver (run b.query (some prepared))
    | Bound.err e ↦ raise (bind_exception e)
  ]

  abbrev pub describes : Option E → Bool
  describes none = false
  describes (some e) = has_description e

  -- The end of `execute`: a write that returns rows is completed now.
  unfoldable pub complete : Text → Call (Unit {0})
  unfolding on_driver tuple_rows
  complete query s =
      if describes s.wrapper.connection && is_write_statement query
      then (do
        items ← call_driver driver_fetchall
        rows ← lift (tuple_rows items)
        λ v. (ok tt, record v { returning_rows = some rows }))
          s
      else (ok tt, s)

  -- `execute`
  unfoldable pub execute : Text → Option (Params V) → Call (Unit {0})
  unfolding django_transaction send complete
  execute query params =
      django_transaction
        (do modify (λ s. record s { returning_rows = none }); send query params; complete query)

  -- `super().executemany` with the rows that the generator yields and the exception that ends it.
  send_rows : Converted → List (Params V) → Call (Unit {0})
  unfolding on_driver validated_rows
  send_rows (bindings b) rows =
      let (given, failure) = validated_rows b rows in
      call_driver (run_many b.query given (Option.map bind_exception failure))
  send_rows (missing name) rows = raise (bind_exception (key_error name))
  send_rows out_of_fuel rows = raise (bind_exception no_fuel)

  pub execute_rows : Text → List (Params V) → Call (Unit {0})
  unfolding send_rows convert_placeholders
  execute_rows query [] s = (ok tt, s)
  execute_rows query (first ∷ rows) s =
      send_rows (convert_placeholders query (param_names first)) (first ∷ rows)
        (record s { returning_rows = none })

  -- `executemany`
  unfoldable pub executemany : Text → List (Params V) → Call (Unit {0})
  unfolding django_transaction execute_rows
  executemany query param_list = django_transaction (execute_rows query param_list)

  row_or_none : Option (Item R) → Call (Option R)
  row_or_none none s = (ok none, s)
  row_or_none (some item) s = (do row ← tuple_row item; pure (some row)) s

  -- The body of `fetchone`, on the buffered rows.
  unfoldable pub take_one : Option (List R) → Call (Option R)
  unfolding row_or_none on_driver
  take_one none s = (do item ← call_driver driver_fetchone; row_or_none item) s
  take_one (some []) s = (ok none, s)
  take_one (some (row ∷ rows)) s = (ok (some row), record s { returning_rows = some rows })

  -- `fetchone`
  unfoldable pub fetchone : Call (Option R)
  unfolding django_transaction take_one
  fetchone = django_transaction (λ s. take_one s.returning_rows s)

  take_size : List R → Size → Call (List R)
  take_size rows (negative n) s = (raised value_error, s)
  take_size rows (natural n) s =
      (ok (take n rows), record s { returning_rows = some (drop n rows) })

  or_arraysize : Option Size → Size → Size
  or_arraysize none arraysize = arraysize
  or_arraysize (some size) arraysize = size

  -- The body of `fetchmany`, on the buffered rows.
  unfoldable pub take_many : Option Size → Option (List R) → Call (List R)
  unfolding take_size or_arraysize on_driver tuple_rows
  take_many size none s =
      (do items ← call_driver (driver_fetchmany size); lift (tuple_rows items)) s
  take_many size (some rows) s = take_size rows (or_arraysize size s.arraysize) s

  -- `fetchmany`
  unfoldable pub fetchmany : Option Size → Call (List R)
  unfolding django_transaction take_many
  fetchmany size = django_transaction (λ s. take_many size s.returning_rows s)

  -- The body of `fetchall`, on the buffered rows.
  unfoldable pub take_all : Option (List R) → Call (List R)
  unfolding on_driver tuple_rows
  take_all none s = (do items ← call_driver driver_fetchall; lift (tuple_rows items)) s
  take_all (some rows) s = (ok rows, record s { returning_rows = some [] })

  -- `fetchall`
  unfoldable pub fetchall : Call (List R)
  unfolding django_transaction take_all
  fetchall = django_transaction (λ s. take_all s.returning_rows s)
