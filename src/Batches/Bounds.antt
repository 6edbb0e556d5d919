-- ===== src/Batches/Bounds.antt =====
-- Quoting in batches is quoting.
use mathlib.Core.Path.{subst}
use django_pyturso.Batches.{
  batch_size, slices, quote_query, QuoteCalls, quote_batch, quote_slices, quote_params, tuple_of,
  closing,
}
use django_pyturso.Exec.{Answer, ok, continue-cases}
use django_pyturso.Prelude.{
  ℕ, zero, suc, ◌≤◌, ◌<◌, ◌≡◌, refl, ◌∙◌, ap, true, some, List, [], ◌∷◌, ◌++◌, map, length, take,
  drop, take-append-drop, length-take, length-drop, All, ltb, arith, Bool-cases, inl, inr,
}

abbrev concat : {A : Type 0} → List (List A) → List A
concat [] = []
concat (xs ∷ xss) = xs ++ concat xss

-- A slice that is not empty and not longer than `size`.
abbrev IsSlice : {A : Type 0} → ℕ → List A → Type 0
IsSlice size xs = (0 < length xs) × (length xs ≤ size)

concat-slices :
    {A : Type 0} (n size : ℕ) (xs : List A)
    → 0 < size
    → length xs ≤ n
    → concat (slices n size xs) ≡ xs
unfolding slices
concat-slices zero size [] p h = refl
concat-slices zero size (x ∷ xs) p h = ground arith
concat-slices (suc n) size [] p h = refl
concat-slices (suc n) size (x ∷ xs) p h =
    ap (◌++◌ (take size (x ∷ xs)))
      (concat-slices n size (drop size (x ∷ xs)) p (omega (arith, length-drop size (x ∷ xs))))
    ∙ take-append-drop size (x ∷ xs)

slices-IsSlice :
    {A : Type 0} (n size : ℕ) (xs : List A) → 0 < size → All (IsSlice size) (slices n size xs)
unfolding slices
slices-IsSlice zero size xs p = tt
slices-IsSlice (suc n) size [] p = tt
slices-IsSlice (suc n) size (x ∷ xs) p = (
  (omega (arith, length-take size (x ∷ xs)), omega (arith, length-take size (x ∷ xs))),
  slices-IsSlice n size (drop size (x ∷ xs)) p,
)

map-append {ℓ κ} :
    {A : Type ℓ} {B : Type κ} (f : A → B) (xs ys : List A) → map f (xs ++ ys) ≡ map f xs ++ map f ys
map-append f [] ys = refl
map-append f (x ∷ xs) ys = ap (◌∷◌ (f x)) (map-append f xs ys)

module _ (calls : QuoteCalls) where
  open calls use {P, Q, D, is_open, open_cursor, query, close_cursor}

  -- What is assumed of the driver: on an open connection, a query for one to 999 parameters answers
  -- their quotes, and the connection stays open.
  pub record Quotes (quote : P → Q) : Type 0 where
    pub opens : (d : D) → is_open d ≡ true → (open_cursor d).0 ≡ ok tt
    pub open_open : (d : D) → is_open d ≡ true → is_open (open_cursor d).1 ≡ true
    pub quotes :
        (d : D) (params : List P)
        → is_open d ≡ true
        → 0 < length params
        → length params ≤ 999
        → (query (quote_query (length params)) params d).0 ≡ ok (some (map quote params))
    pub open_query :
        (d : D) (params : List P)
        → is_open d ≡ true
        → is_open (query (quote_query (length params)) params d).1 ≡ true
    pub closes : (d : D) → is_open d ≡ true → (close_cursor d).0 ≡ ok tt
    pub open_close : (d : D) → is_open d ≡ true → is_open (close_cursor d).1 ≡ true

  module _ (quote : P → Q) (driver : Quotes quote) where
    -- The quotes of the parameters, on a connection that is still open.
    abbrev pub AreQuoted : List P → Answer (List Q) × D → Type 0
    AreQuoted params p = (p.0 ≡ ok (map quote params)) × (is_open p.1 ≡ true)

    closing-AreQuoted :
        (params : List P) (r : Answer (List Q)) (d : D)
        → r ≡ ok (map quote params)
        → is_open d ≡ true
        → AreQuoted params (closing calls r d)
    closing-AreQuoted params r d e h =
        continue-cases (AreQuoted params) (close_cursor d) _
          (λ x q. absurd (ground (arith, driver.closes d h, q))) (λ _ q. (e, driver.open_close d h))

    quote_batch-AreQuoted :
        (params : List P) (d : D)
        → length params ≤ 999
        → is_open d ≡ true
        → AreQuoted params (quote_batch calls params d)
    unfolding quote_batch
    quote_batch-AreQuoted [] d b h = (refl, h)
    quote_batch-AreQuoted (p ∷ params) d b h = rw h (
        continue-cases (AreQuoted (p ∷ params)) (open_cursor d) _
          (λ x q. absurd (ground (arith, driver.opens d h, q)))
          (λ _ q.
            let up = driver.open_open d h in
            closing-AreQuoted (p ∷ params) _ _
              (ap (tuple_of calls) (driver.quotes _ (p ∷ params) up (omega arith) b))
              (driver.open_query _ (p ∷ params) up)))

    quote_slices-AreQuoted :
        (pieces : List (List P)) (d : D)
        → All (IsSlice 999) pieces
        → is_open d ≡ true
        → AreQuoted (concat pieces) (quote_slices calls pieces d)
    unfolding quote_slices
    quote_slices-AreQuoted [] d s h = (refl, h)
    quote_slices-AreQuoted (piece ∷ pieces) d (s, rest) h =
        let first = quote_batch-AreQuoted piece d s.1 h in
        continue-cases (AreQuoted (piece ++ concat pieces)) (quote_batch calls piece d) _
          (λ x q. absurd (ground (arith, first.0, q)))
          (λ quoted q.
            let later = quote_slices-AreQuoted pieces (quote_batch calls piece d).1 rest first.1 in
            continue-cases (AreQuoted (piece ++ concat pieces))
              (quote_slices calls pieces (quote_batch calls piece d).1) _
              (λ x r. absurd (ground (arith, later.0, r)))
              (λ more r. (
                ground (arith, q, r, first.0, later.0, map-append quote piece (concat pieces)),
                later.1,
              )))

    -- Quoting the parameters of a query for display, in slices of at most 999 since one query cannot
    -- bind more, gives the quotes of all of them in their order, for any number of parameters, on an
    -- open connection. The driver is assumed to answer for one to 999 at a time.
    pub quote_params-AreQuoted :
        (params : List P) (d : D)
        → is_open d ≡ true
        → AreQuoted params (quote_params calls params d)
    unfolding quote_params
    quote_params-AreQuoted params d h = elim (Bool-cases (ltb batch_size (length params))) [
      | inr short ↦ simp short (quote_batch-AreQuoted params d (ground (arith, short)) h)
      | inl long ↦ simp long (
          subst
            (λ xs. AreQuoted xs (quote_slices calls (slices (length params) batch_size params) d))
            (concat-slices (length params) batch_size params (omega arith) (omega arith))
            (quote_slices-AreQuoted (slices (length params) batch_size params) d
              (slices-IsSlice (length params) batch_size params (omega arith)) h))
    ]
