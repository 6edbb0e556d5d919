-- ===== src/Examples/Setup.antt =====
-- Settings that are accepted, a connection that is opened, and a schema editor that is left.
use django_pyturso.Exec.{Answer, ok, raised, improperly_configured, interrupt}
use django_pyturso.Opening.Journal.{Reports}
use django_pyturso.Opening.Setup.{IsSetUp, set_up-IsSetUp}
use django_pyturso.Opening.{OpenCalls, text, integer, set_up, Cell}
use django_pyturso.Prelude.{
  ℕ, ◌≡◌, refl, ◌⊎◌, Bool, true, false, Option, none, some, [], ◌∷◌, Text, codes, text_eq,
  if◌then◌else◌, arith, contains,
}
use django_pyturso.Schema.Restore.{IsRestored, exit-IsRestored}
use django_pyturso.Schema.{Editor, SchemaCalls, exit}
use django_pyturso.Settings.Sound.{IsLocal, AreCompatible, get_connection_params-IsSound}
use django_pyturso.Settings.{
  SettingsDict, Modes, mapping, null, has_remote_setting, get_connection_params, Value,
}

abbrev settings : SettingsDict
settings = record {
  name = Value.text (codes "app.db");
  host = null;
  port = null;
  user = null;
  password = null;
  options = mapping (
      (some (codes "transaction_mode"), Value.text (codes "CONCURRENT"))
      ∷ (some (codes "journal_mode"), Value.text (codes "MVCC"))
      ∷ []);
}

abbrev no_modes : Modes
no_modes = record { transaction_mode = codes "DEFERRED"; journal_mode = none }

get_connection_params-IsSound_example :
    let (r, m') = get_connection_params (λ t. t) settings no_modes in
    (r ≡ raised improperly_configured)
    ⊎ ((database : Text) × (r ≡ ok database)
        × IsLocal database
        × (has_remote_setting settings ≡ false)
        × AreCompatible m')
get_connection_params-IsSound_example = get_connection_params-IsSound (λ t. t) settings no_modes

accepted : (get_connection_params (λ t. t) settings no_modes).0 ≡ ok (codes "app.db")
unfolding get_connection_params
accepted = refl

-- The engine's state: enforcement, whether the journal is MVCC, and whether it is closed.
abbrev mode_name : Bool → Text
mode_name true = codes "MVCC"
mode_name false = codes "WAL"

abbrev Engine : Type 0
Engine = Bool × Bool × Bool

abbrev enforcement : Engine → ℕ
enforcement (true, m, c) = 1
enforcement (false, m, c) = 0

abbrev journal : Engine → Text
journal (e, m, c) = mode_name m

abbrev IsClosed : Engine → Type 0
IsClosed (e, m, c) = c ≡ true

abbrev answer_query : Text → Engine → Answer (Option Cell) × Engine
answer_query sql e =
    if text_eq sql (codes "PRAGMA foreign_keys")
    then (ok (some (integer (enforcement e))), e)
    else if text_eq sql (codes "PRAGMA journal_mode")
    then (ok (some (text (journal e))), e)
    else (ok (some (text (codes "3.50.4"))), e)

abbrev run_statement : Text → Engine → Answer (Unit {0}) × Engine
run_statement sql (e, m, c) =
    if text_eq sql (codes "PRAGMA foreign_keys = ON")
    then (ok tt, (true, m, c))
    else (ok tt, (e, true, c))

abbrev small : OpenCalls
small = record {
  E = Engine;
  connect = λ database. ok (false, false, false);
  is_io_error = λ x. false;
  upper = λ t. t;
  open_cursor = λ e. (ok tt, e);
  close_cursor = λ e. (ok tt, e);
  execute = run_statement;
  fetchall = λ e. (ok tt, e);
  query = answer_query;
  close = λ (e, m, c). (ok tt, (e, m, true));
}

small-Reports : Reports small enforcement journal IsClosed
unfolding text_eq
small-Reports = record {
  reads_enforced = λ e n h. ground arith;
  reads_journal = λ e t h. ground arith;
  journal_pragma = λ e. refl;
  journal_readback = λ e. refl;
  journal_version = λ e. refl;
  enforced_version = λ e. refl;
  journal_close = λ e. refl;
  enforced_close = λ e. refl;
  closes = λ e. refl;
}

set_up-IsSetUp_example :
    IsSetUp small enforcement journal IsClosed small-Reports
      (some (codes "MVCC"))
      (set_up small (some (codes "MVCC")) (false, false, false))
unfolding contains
set_up-IsSetUp_example =
    set_up-IsSetUp small enforcement journal IsClosed small-Reports (some (codes "MVCC"))
      (false, false, false) refl

-- A connection with its enforcement, and whether it is disposed of.
abbrev Link : Type 0
Link = Bool × Bool

abbrev link_enforced : Link → ℕ
link_enforced (true, c) = 1
link_enforced (false, c) = 0

abbrev IsDisposed : Link → Type 0
IsDisposed (e, c) = c ≡ true

abbrev link : SchemaCalls
link = record {
  D = Link;
  read_foreign_keys = λ d. (ok (some (link_enforced d)), d);
  write_foreign_keys = λ b d. (ok tt, (b, d.1));
  force_close = λ d. (ok tt, (d.0, true));
  ensure_connection = λ d. (ok tt, d);
  get_autocommit = λ d. (ok true, d);
  in_atomic_block = λ d. false;
  base_enter = λ mode d. (ok tt, d);
  execute = λ sql d. (raised (interrupt 1), d);
  check_constraints = λ d. (ok tt, d);
  base_exit = λ exc mode d. (ok tt, d);
}

link-Reports : django_pyturso.Schema.Restore.Reports link link_enforced IsDisposed
link-Reports = record { reads = λ d n h. ground arith; disposes = λ d. refl }

-- Within the editor: enforcement is off, and a deferred statement will fail.
abbrev editing : Editor Link
editing = record {
  database = (false, false);
  transaction_mode = codes "IMMEDIATE";
  deferred_sql = codes "CREATE INDEX" ∷ [];
  original_foreign_keys = some 1;
  original_transaction_mode = some (codes "CONCURRENT");
}

exit-IsRestored_example :
    IsRestored link link_enforced IsDisposed link-Reports 1 (exit link none editing).1.database
exit-IsRestored_example =
    exit-IsRestored link link_enforced IsDisposed link-Reports none editing 1 refl (ground arith)
