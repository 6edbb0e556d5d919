-- ===== src/Batches.antt =====
-- Batches of parameters: `bulk_batch_size`, `_quote_params_for_last_executed_query` and
-- `last_executed_query` of `DatabaseOperations` in src/django_pyturso/operations.py.
pub mod Bounds
use django_pyturso.Exec.{Exc, runtime_error, type_error, value_error, Answer, ok, raised, continue}
use django_pyturso.ForeignKeys.{join}
use django_pyturso.Prelude.{
  ℕ, zero, suc, ◌+◌, ◌/◌, Bool, true, false, Option, none, some, List, [], ◌∷◌, ◌++◌, map, Text,
  codes, length, take, drop, ltb, ◌==◌, if◌then◌else◌,
}

-- A model's field, or a composite primary key with the number of its fields.
pub data Field : Type 0 where
  single : Field
  composite : ℕ → Field

-- `len(flattened)`
abbrev pub flattened : List Field → ℕ
flattened [] = 0
flattened (single ∷ fields) = suc (flattened fields)
flattened (composite n ∷ fields) = n + flattened fields

-- `bulk_batch_size`, with the number of objects in the place of the objects.
unfoldable pub bulk_batch_size : ℕ → List Field → ℕ → ℕ
bulk_batch_size max_query_params fields objs =
    if flattened fields == 0 then objs else max_query_params / flattened fields

-- `batch_size` of `_quote_params_for_last_executed_query`
abbrev pub batch_size : ℕ
batch_size = 999

-- The slices `params[index : index + size]` for `index` in `range(0, len(params), size)`, on fuel.
unfoldable pub slices {ℓ} : {P : Type ℓ} → ℕ → ℕ → List P → List (List P)
slices zero size params = []
slices (suc n) size [] = []
slices (suc n) size (p ∷ params) = take size (p ∷ params) ∷ slices n size (drop size (p ∷ params))

abbrev pub repeated : ℕ → Text → List Text
repeated zero t = []
repeated (suc n) t = t ∷ repeated n t

-- `"SELECT " + ", ".join(["QUOTE(?)"] * len(params))`
unfoldable pub quote_query : ℕ → Text
unfolding join
quote_query n = codes "SELECT " ++ join (codes ", ") (repeated n (codes "QUOTE(?)"))

-- Parameters by position or by name, or `None`.
pub data Params (P : Type 0) : Type 0 where
  no_params : Params P
  sequence : List P → Params P
  mapping : List (Text × P) → Params P

-- What the methods call. `D` is the state of the connection, which may be closed. `query` is
-- `cursor.execute(sql, params).fetchone()`. The two formats are Python's `%` on a text.
pub record QuoteCalls : Type 1 where
  pub P : Type 0
  pub Q : Type 0
  pub D : Type 0
  pub is_open : D → Bool
  pub open_cursor : D → Answer (Unit {0}) × D
  pub query : Text → List P → D → Answer (Option (List Q)) × D
  pub close_cursor : D → Answer (Unit {0}) × D
  pub format_sequence : Text → List Q → Answer Text
  pub format_mapping : Text → List (Text × Q) → Answer Text

module _ (calls : QuoteCalls) where
  open calls use {
    P, Q, D, is_open, open_cursor, query, close_cursor, format_sequence, format_mapping,
  }

  -- `tuple(row)`
  abbrev pub as_tuple : Option (List Q) → Answer (List Q)
  as_tuple none = raised type_error
  as_tuple (some row) = ok row

  -- `finally: cursor.close()`
  abbrev pub closing : Answer (List Q) → D → Answer (List Q) × D
  closing r d = continue (close_cursor d) (λ _ d'. (r, d'))

  abbrev pub tuple_of : Answer (Option (List Q)) → Answer (List Q)
  tuple_of (ok row) = as_tuple row
  tuple_of (raised x) = raised x

  -- The method on a batch that is small enough.
  unfoldable pub quote_batch : List P → D → Answer (List Q) × D
  unfolding quote_query
  quote_batch [] d = (ok [], d)
  quote_batch (p ∷ params) d =
      if is_open d
      then continue (open_cursor d) (λ _ d'.
        let (row, d'') = query (quote_query (length (p ∷ params))) (p ∷ params) d' in
        closing (tuple_of row) d'')
      else (raised runtime_error, d)

  -- The quoted parameters of the slices, one after the other. A slice is not cut again.
  unfoldable pub quote_slices : List (List P) → D → Answer (List Q) × D
  unfolding quote_batch
  quote_slices [] d = (ok [], d)
  quote_slices (slice ∷ rest) d =
      continue (quote_batch slice d)
        (λ quoted d'. continue (quote_slices rest d') (λ more d''. (ok (quoted ++ more), d'')))

  -- `_quote_params_for_last_executed_query`
  unfoldable pub quote_params : List P → D → Answer (List Q) × D
  unfolding quote_slices slices quote_batch
  quote_params params d =
      if ltb batch_size (length params)
      then quote_slices (slices (length params) batch_size params) d
      else quote_batch params d

  -- `dict(zip(params, values, strict=True))`
  unfoldable pub zip_strict : List Text → List Q → Answer (List (Text × Q))
  zip_strict [] [] = ok []
  zip_strict (name ∷ names) (q ∷ values) = elim (zip_strict names values) [
    | ok rest ↦ ok ((name, q) ∷ rest)
    | raised x ↦ raised x
  ]
  zip_strict _ _ = raised value_error

  abbrev pub format_zipped : Text → Answer (List (Text × Q)) → Answer Text
  format_zipped sql (ok quoted) = format_mapping sql quoted
  format_zipped sql (raised x) = raised x

  -- `last_executed_query`. Parameters that are empty count as none.
  unfoldable pub last_executed_query : Text → Params P → D → Answer Text × D
  unfolding quote_params zip_strict
  last_executed_query sql no_params d = (ok sql, d)
  last_executed_query sql (sequence []) d = (ok sql, d)
  last_executed_query sql (sequence (p ∷ params)) d =
      continue (quote_params (p ∷ params) d) (λ quoted d'. (format_sequence sql quoted, d'))
  last_executed_query sql (mapping []) d = (ok sql, d)
  last_executed_query sql (mapping (item ∷ items)) d =
      continue (quote_params (map (λ i. i.1) (item ∷ items)) d)
        (λ values d'. (format_zipped sql (zip_strict (map (λ i. i.0) (item ∷ items)) values), d'))
