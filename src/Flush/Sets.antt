-- ===== src/Flush/Sets.antt =====
-- Sets of tables as lists without repeats.
use django_pyturso.Flush.Reach.{Distinct, contains-append}
use django_pyturso.Flush.Statements.{add_all}
use django_pyturso.Prelude.{
  ◌≡◌, refl, inl, inr, false, ◌||◌, List, [], ◌∷◌, ◌++◌, Text, text_eq_iff, contains, arith,
  Bool-cases,
}

pub contains-add_all :
    (z : Text) (seen xs : List Text)
    → contains z (add_all seen xs) ≡ (contains z seen || contains z xs)
unfolding add_all contains
contains-add_all z seen [] = ground arith
contains-add_all z seen (x ∷ xs) = ground (
  arith,
  contains-add_all z seen xs,
  contains-add_all z (seen ++ x ∷ []) xs,
  contains-append z seen (x ∷ []),
  text_eq_iff z x,
)

Distinct-append :
    (x : Text) (xs : List Text) → Distinct xs → contains x xs ≡ false → Distinct (xs ++ x ∷ [])
unfolding contains
Distinct-append x [] d h = (refl, tt)
Distinct-append x (y ∷ xs) (new, d) h = (
  ground (arith, new, h, contains-append y xs (x ∷ []), text_eq_iff y x, text_eq_iff x y),
  Distinct-append x xs d (ground (arith, h)),
)

pub Distinct-add_all : (seen xs : List Text) → Distinct seen → Distinct (add_all seen xs)
unfolding add_all
Distinct-add_all seen [] d = d
Distinct-add_all seen (x ∷ xs) d = elim (Bool-cases (contains x seen)) [
  | inl old ↦ simp old (Distinct-add_all seen xs d)
  | inr new ↦ simp new (Distinct-add_all (seen ++ x ∷ []) xs (Distinct-append x seen d new))
]
