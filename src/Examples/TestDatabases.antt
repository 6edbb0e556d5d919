-- ===== src/Examples/TestDatabases.antt =====
-- A directory of files, given by their names.
use django_pyturso.Creation.{
  text, TestSettings, CreationCalls, create_test_db, set_as_test_mirror, path,
}
use django_pyturso.Exec.{ok, raised, system_exit, not_supported}
use django_pyturso.Prelude.{
  ◌≡◌, refl, true, false, some, List, [], ◌∷◌, ◌++◌, Text, codes, text_eq, contains, if◌then◌else◌,
}

unfoldable remove : Text → List Text → List Text
unfolding text_eq
remove p [] = []
remove p (q ∷ names) = let rest = remove p names in if text_eq p q then rest else q ∷ rest

-- A user that always answers `no`.
abbrev directory : CreationCalls
directory = record {
  D = List Text;
  with_test_prefix = λ t. ok (codes "test_" ++ t);
  as_path = λ t. t;
  exists = contains;
  unlink = λ p d. (ok tt, remove p d);
  ask = λ d. (ok (codes "no"), d);
  validate_thread_sharing = λ d. (ok tt, d);
  validate_no_atomic_block = λ d. (ok tt, d);
  rollback_and_force_close = λ d. (ok tt, remove (codes "db-wal") d);
  close = λ d. (ok tt, d);
  set_name = λ n d. d;
}

abbrev some_files : List Text
some_files = codes "db" ∷ codes "db-wal" ∷ codes "test_db" ∷ codes "test_db-wal" ∷ []

abbrev settings : TestSettings
settings = record { name = text (codes "db"); test_name = some (text []) }

-- Closing the connection removes the log of its own database.
abbrev own : List Text
own = codes "db" ∷ codes "db-wal" ∷ []

refused :
    create_test_db directory settings false false some_files
    ≡ (raised (system_exit 1), codes "db" ∷ codes "test_db" ∷ codes "test_db-wal" ∷ [])
unfolding create_test_db text_eq contains remove
refused = refl

created :
    create_test_db directory settings true false some_files
    ≡ (ok (codes "test_db"), codes "db" ∷ [])
unfolding create_test_db text_eq contains remove
created = refl

no_memory_mirror :
    set_as_test_mirror directory (path (codes ":memory:")) some_files
    ≡ (raised not_supported, some_files)
unfolding set_as_test_mirror text_eq
no_memory_mirror = refl
