-- ===== src/Flush/Reach.antt =====
-- The worklist ends on the fuel that it is given, with each table that references the first one,
-- directly or through others, once.
use mathlib.Core.Path.{subst}
use django_pyturso.Flush.Sorting.{contains-insert, length-insert}
use django_pyturso.Flush.{Edges, referencing, visit, references_from}
use django_pyturso.Prelude.{
  ℕ, zero, suc, ◌+◌, ◌≤◌, ◌<◌, ◌≡◌, refl, sym, inl, inr, ◌↔◌, Bool, true, false, ◌&&◌, ◌||◌, some,
  List, [], ◌∷◌, ◌++◌, Text, text_eq, text_eq_iff, text_eq_refl, contains, length, length-append,
  arith, if◌then◌else◌, Bool-cases, Option-cases,
}

-- The foreign keys contain the pair of `a` and `b`.
abbrev pub has_edge : Text → Text → Edges → Bool
has_edge a b [] = false
has_edge a b ((target, candidate) ∷ edges) =
    (text_eq target a && text_eq b candidate) || has_edge a b edges

-- Table `b` references table `a`, directly or through other tables.
pub data Reaches (edges : Edges) : Text → Text → Type 0 where
  here : (a : Text) → Reaches edges a a
  onwards : (a b c : Text) → has_edge a b edges ≡ true → Reaches edges b c → Reaches edges a c

abbrev pub Distinct : List Text → Type 0
Distinct [] = Unit
Distinct (x ∷ xs) = (contains x xs ≡ false) × Distinct xs

pub contains-append :
    (z : Text) (xs ys : List Text) → contains z (xs ++ ys) ≡ (contains z xs || contains z ys)
unfolding contains
contains-append z [] ys = refl
contains-append z (x ∷ xs) ys = ground (arith, contains-append z xs ys)

contains-referencing :
    (b a : Text) (edges : Edges) → contains b (referencing a edges) ≡ has_edge a b edges
unfolding referencing contains
contains-referencing b a [] = refl
contains-referencing b a ((t, c) ∷ edges) =
    ground (arith, contains-referencing b a edges, contains-insert b c (referencing a edges))

-- How many foreign keys reference a table that has not been seen.
abbrev unseen : Edges → List Text → ℕ
unseen [] seen = 0
unseen ((target, _) ∷ edges) seen = (if contains target seen then 0 else 1) + unseen edges seen

unseen-push :
    (edges : Edges) (c : Text) (seen : List Text)
    → contains c seen ≡ false
    → length (referencing c edges) + unseen edges (c ∷ seen) ≤ unseen edges seen
unfolding referencing contains
unseen-push [] c seen h = ground arith
unseen-push ((t, d) ∷ edges) c seen h =
    ground
      (arith, unseen-push edges c seen h, length-insert d (referencing c edges), text_eq_iff t c)

unseen_bound : (edges : Edges) (seen : List Text) → unseen edges seen ≤ length edges
unseen_bound [] seen = ground arith
unseen_bound ((t, d) ∷ edges) seen = ground (arith, unseen_bound edges seen)

visit-ends :
    (n : ℕ) (edges : Edges) (pending seen : List Text)
    → length pending + unseen edges seen < n
    → (r : List Text) × (visit n edges pending seen ≡ some r)
unfolding visit
visit-ends zero edges pending seen h = ground arith
visit-ends (suc n) edges [] seen h = ([], refl)
visit-ends (suc n) edges (c ∷ pending) seen h = elim (Bool-cases (contains c seen)) [
  | inl old ↦ let (r, e) = visit-ends n edges pending seen (ground arith) in (r, ground (arith, e))
  | inr new ↦
      let (r, e) = visit-ends n edges (referencing c edges ++ pending) (c ∷ seen) (
        ground
          (arith, length-append (referencing c edges) pending, unseen-push edges c seen new)) in
      (c ∷ r, ground (arith, e))
]

-- What a run of the worklist from `pending` and `seen` has found.
record Visited (edges : Edges) (pending seen r : List Text) : Type 0 where
  covers : (x : Text) → contains x pending ≡ true → (contains x seen || contains x r) ≡ true
  closed :
      (x y : Text)
      → contains x r ≡ true
      → has_edge x y edges ≡ true
      → (contains y seen || contains y r) ≡ true
  fresh : (x : Text) → contains x seen ≡ true → contains x r ≡ false
  distinct : Distinct r
  found :
      (x : Text)
      → contains x r ≡ true
      → (y : Text) × (contains y pending ≡ true) × Reaches edges y x

Visited-empty : (edges : Edges) (seen : List Text) → Visited edges [] seen []
unfolding contains
Visited-empty edges seen = record {
  covers = λ x h. ground arith;
  closed = λ x y h e. ground arith;
  fresh = λ x h. refl;
  distinct = tt;
  found = λ x h. ground arith;
}

Visited-skip :
    (edges : Edges) (c : Text) (pending seen r : List Text)
    → contains c seen ≡ true
    → Visited edges pending seen r
    → Visited edges (c ∷ pending) seen r
unfolding contains
Visited-skip edges c pending seen r old v = record {
  covers = λ x h. ground (arith, v.covers x, text_eq_iff x c);
  closed = v.closed;
  fresh = v.fresh;
  distinct = v.distinct;
  found = λ x h. let (y, p, e) = v.found x h in (y, ground arith, e);
}

found_push :
    (edges : Edges) (c : Text) (pending seen r : List Text)
    → Visited edges (referencing c edges ++ pending) (c ∷ seen) r
    → (x : Text) → contains x (c ∷ r) ≡ true
    → (y : Text) × (contains y (c ∷ pending) ≡ true) × Reaches edges y x
unfolding contains
found_push edges c pending seen r v x h = elim (Bool-cases (text_eq x c)) [
  | inl same ↦ (
    c,
    ground (arith, text_eq_refl c),
    subst (λ z. Reaches edges c z) (sym ((text_eq_iff x c).0 same)) (here c),
  )
  | inr other ↦
      let (y, p, e) = v.found x (ground arith) in
      elim (Bool-cases (has_edge c y edges)) [
        | inl edge ↦ (c, ground (arith, text_eq_refl c), onwards c y x edge e)
        | inr apart ↦ (
          y,
          ground (
            arith,
            contains-append y (referencing c edges) pending,
            contains-referencing y c edges,
          ),
          e,
        )
      ]
]

Visited-push :
    (edges : Edges) (c : Text) (pending seen r : List Text)
    → contains c seen ≡ false
    → Visited edges (referencing c edges ++ pending) (c ∷ seen) r
    → Visited edges (c ∷ pending) seen (c ∷ r)
unfolding contains
Visited-push edges c pending seen r new v = record {
  covers = λ x h. ground (arith, v.covers x, contains-append x (referencing c edges) pending);
  closed = λ x y h e. ground (
    arith,
    v.closed x y,
    v.covers y,
    contains-append y (referencing c edges) pending,
    contains-referencing y x edges,
    contains-referencing y c edges,
    text_eq_iff x c,
  );
  fresh = λ x h. ground (arith, v.fresh x, text_eq_iff x c);
  distinct = (v.fresh c (ground (arith, text_eq_refl c)), v.distinct);
  found = λ x h. found_push edges c pending seen r v x h;
}

visit-Visited :
    (n : ℕ) (edges : Edges) (pending seen r : List Text)
    → visit n edges pending seen ≡ some r
    → Visited edges pending seen r
unfolding visit
visit-Visited zero edges pending seen r h = ground arith
visit-Visited (suc n) edges [] seen r h =
    subst (Visited edges [] seen) (ground arith) (Visited-empty edges seen)
visit-Visited (suc n) edges (c ∷ pending) seen r h = elim (Bool-cases (contains c seen)) [
  | inl old ↦
      Visited-skip edges c pending seen r old (visit-Visited n edges pending seen r (ground arith))
  | inr new ↦ elim (Option-cases (visit n edges (referencing c edges ++ pending) (c ∷ seen))) [
    | inl out ↦ ground arith
    | inr (r', e) ↦
        subst (Visited edges (c ∷ pending) seen) (ground arith)
          (Visited-push edges c pending seen r' new (visit-Visited n edges _ _ r' e))
  ]
]

Visited-Reaches :
    (edges : Edges) (pending r : List Text)
    → Visited edges pending [] r
    → (a b : Text) → Reaches edges a b
    → contains a r ≡ true
    → contains b r ≡ true
unfolding contains
Visited-Reaches edges pending r v a b (here _) h = h
Visited-Reaches edges pending r v a c (onwards _ b _ e p) h =
    Visited-Reaches edges pending r v b c p (v.closed a b h e)

-- The tables that the worklist returns: no table twice, and a table is among them exactly if it
-- references the first one, directly or through others, or is that one.
abbrev pub IsClosure : Edges → Text → List Text → Type 0
IsClosure edges table r = Distinct r × ((x : Text) → (contains x r ≡ true) ↔ Reaches edges table x)

-- The worklist of a flush ends within its fuel, the number of foreign keys and two, also when
-- tables reference each other in a cycle. It returns the table and exactly those tables
-- that reference it directly or through others, none of them twice.
pub references_from-IsClosure :
    (edges : Edges) (table : Text)
    → (r : List Text) × (references_from edges table ≡ some r) × IsClosure edges table r
unfolding references_from contains
references_from-IsClosure edges table =
    let (r, e) =
      visit-ends (2 + length edges) edges (table ∷ []) [] (ground (arith, unseen_bound edges [])) in
    let v = visit-Visited (2 + length edges) edges (table ∷ []) [] r e in
    (
      r,
      e,
      (
        v.distinct,
        λ x. (
          (λ h.
              let (y, p, q) = v.found x h in
              subst (λ z. Reaches edges z x) ((text_eq_iff y table).0 (ground arith)) q),
          λ p.
              Visited-Reaches edges (table ∷ []) r v table x p
                (v.covers table (ground (arith, text_eq_refl table))),
        ),
      ),
    )
