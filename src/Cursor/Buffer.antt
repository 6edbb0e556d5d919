-- ===== src/Cursor/Buffer.antt =====
-- The rows of a completed write are served from memory.
use django_pyturso.Connection.{ensure_transaction}
use django_pyturso.Cursor.{CursorCalls, Session, Size, Call, fetchone, fetchmany, fetchall}
use django_pyturso.Exec.{Answer, ok, raised}
use django_pyturso.Prelude.{
  ◌≡◌, Option, none, some, List, [], ◌∷◌, ◌++◌, inl, inr, ◌⊎◌, ◌⊎◌, inr, inl,
}

-- The three fetch methods.
pub data Fetch : Type 0 where
  one all : Fetch
  many : Option Size → Fetch

module _ (driver_calls : CursorCalls) where
  open driver_calls use {calls, R}
  open calls use {E, in_transaction, validate_no_broken_transaction}

  -- `fetchone` as a list of at most one row.
  abbrev pub listed : Answer (Option R) × Session E R → Answer (List R) × Session E R
  listed (ok none, s) = (ok [], s)
  listed (ok (some row), s) = (ok (row ∷ []), s)
  listed (raised x, s) = (raised x, s)

  unfoldable pub fetch : Fetch → Call driver_calls (List R)
  fetch one s = listed (fetchone driver_calls s)
  fetch (many size) s = fetchmany driver_calls size s
  fetch all s = fetchall driver_calls s

  -- A fetch from these buffered rows returned the first of them and kept the others, or it raised
  -- and kept all. It did nothing else than `_ensure_transaction` to the wrapper.
  abbrev pub Serves : List R → Session E R → Answer (List R) × Session E R → Type 0
  Serves rows s (ok out, s') =
      (rest : List R) × (s'.returning_rows ≡ some rest)
      × (out ++ rest ≡ rows)
      × (s'.wrapper ≡ (ensure_transaction calls s.wrapper).1)
      × (s'.arraysize ≡ s.arraysize)
  Serves rows s (raised x, s') =
      (s'.returning_rows ≡ some rows)
      × ((s'.wrapper ≡ s.wrapper) ⊎ (s'.wrapper ≡ (ensure_transaction calls s.wrapper).1))
