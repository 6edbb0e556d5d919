-- ===== src/Lib.antt =====
-- django-pyturso, a Django database backend for the embedded Turso engine: a model of its Python
-- code and the theorems about it.
--
-- A request goes through the parts as follows. The settings are read, a connection is opened
-- and set up, and each cursor call runs under a guard that begins transactions and notices when
-- the engine has aborted one. Statements pass through the conversion of placeholders. The schema
-- editor brackets changes of tables, and the introspection reads stored SQL back.
--
-- Settings: get_connection_params in src/django_pyturso/base.py.
-- Opening: get_new_connection, _configure_journal_mode, _parse_database_version, same file.
-- Connection: _ensure_transaction, _set_autocommit and the savepoint calls, same file.
--   Connection.Close: rollback before a close, close, and the two health checks.
-- Cursor: TursoCursorWrapper, same file, with the buffer of RETURNING rows.
-- Placeholders: _QueryBindings and _convert_placeholders, same file. A round of the loop is
--   `step_in`, one function per scanner state.
-- ForeignKeys: check_constraints and its helpers in the same file, _foreign_key_rows and
--   _resolve_foreign_key_target_columns in src/django_pyturso/introspection.py.
--   ForeignKeys.Enforcement: disable_constraint_checking and enable_constraint_checking.
-- Schema: __enter__ and __exit__ of DatabaseSchemaEditor in src/django_pyturso/schema.py.
-- Identifiers: quote_name of src/django_pyturso/operations.py, _unquote_identifier and
--   _identifier_key of src/django_pyturso/introspection.py, the text literals of quote_value.
-- Flush: _references_graph_for_table of src/django_pyturso/operations.py, and in
--   Flush.Statements sql_flush and sequence_reset_by_name_sql.
-- Writes: _is_write_statement of src/django_pyturso/base.py.
-- Temporal: the methods of src/django_pyturso/operations.py that write SQL for dates and times.
--   Temporal.Rounds and Temporal.Fragments say how the conversion of placeholders reads it.
-- Batches: bulk_batch_size, the quoting of parameters and last_executed_query, same file.
-- FieldTypes: _get_varchar_column of src/django_pyturso/base.py, get_field_size,
--   FlexibleFieldLookupDict and get_field_type of src/django_pyturso/introspection.py. Decimals:
--   numbers as digits.
-- Remake: changes of tables in src/django_pyturso/schema.py. Remake itself computes what
--   _remake_table copies, Remake.Steps has its statements, Remake.Decisions says which change
--   add_field, remove_field, _alter_field and the constraint methods make, Remake.Alterations has the
--   statements of _alter_field and _alter_many_to_many.
-- Description: get_table_description, get_primary_key_columns and get_sequences of
--   src/django_pyturso/introspection.py. Description.Columns: what a stored statement says of
--   collations, sizes and JSON columns. Description.Assembly: get_constraints.
-- Creation: src/django_pyturso/creation.py.
-- Audit: _validate_response of scripts/audit_dependencies.py. Audit.Timestamps: its regular
--   expression. Audit.Release: _runtime_dependencies, _audit_release and the loop of main.
-- Constraints: _parse_column_or_constraint_definition, and in Constraints.Table
--   _parse_table_constraints, of src/django_pyturso/introspection.py.
-- Exec: actions on a state that may raise, with the state at the raise kept. Prelude: shared
--   names and lemmas. Examples: runs on small inputs.
--
-- A text is the list of its code points. What is outside of the repository is a parameter: the
-- driver's connection and cursors, Django's base classes, sqlparse's tokens, Unicode tables. What
-- is assumed of it stands in records of hypotheses, such as `Begins`, `Closes` and `Reports`.
--
-- Four loops run on fuel. The scanner of placeholders has one more than the length of the query,
-- and each round reads a character. The worklist of Flush has two more than the number of foreign
-- keys, since a table's foreign keys are pushed once. The constraint parser has one more than the
-- number of tokens, since a definition takes a token or raises. The slices of parameters have the
-- number of parameters, since a slice is not empty. Each has a proof that it is enough. So have the
-- digits of a number, with one more than the number.
--
-- Not modelled: get_relations and get_table_list, check_expression_support, adapters and converters
-- of values, defaults in schemas other than texts, the tables of types and features for Django, the
-- other scripts, which copy files and run programs, and texts of messages.
pub mod Prelude
pub mod Identifiers
pub mod Decimals
pub mod Exec
pub mod FieldTypes
pub mod Flush
pub mod ForeignKeys
pub mod Settings
pub mod Batches
pub mod Temporal
pub mod Writes
pub mod Opening
pub mod Placeholders
pub mod Connection
pub mod Constraints
pub mod Cursor
pub mod Remake
pub mod Schema
mod Examples
pub mod Description
pub mod Audit
pub mod Creation
