-- ===== src/Flush/Sorting.antt =====
-- `sorted` on a set of texts, as insertion into an ascending list without repeats.
use django_pyturso.Prelude.{
  Bool, true, false, ◌≡◌, refl, ◌||◌, ◌&&◌, ◌≤◌, suc, List, [], ◌∷◌, Text, contains, text_eq,
  text_eq_iff, length, ltb, ◌==◌, if◌then◌else◌, arith,
}

-- `a < b` on texts.
unfoldable pub text_lt : Text → Text → Bool
text_lt [] [] = false
text_lt [] (y ∷ ys) = true
text_lt (x ∷ xs) [] = false
text_lt (x ∷ xs) (y ∷ ys) = ltb x y || ((x == y) && text_lt xs ys)

unfoldable pub insert : Text → List Text → List Text
unfolding text_eq text_lt
insert x [] = x ∷ []
insert x (y ∷ ys) =
    let later = insert x ys in
    if text_eq x y then y ∷ ys else if text_lt x y then x ∷ y ∷ ys else y ∷ later

pub contains-insert :
    (z x : Text) (ys : List Text) → contains z (insert x ys) ≡ (text_eq z x || contains z ys)
unfolding contains insert
contains-insert z x [] = refl
contains-insert z x (y ∷ ys) =
    ground (arith, contains-insert z x ys, text_eq_iff x y, text_eq_iff z x, text_eq_iff z y)

pub length-insert : (x : Text) (ys : List Text) → length (insert x ys) ≤ suc (length ys)
unfolding insert
length-insert x [] = ground arith
length-insert x (y ∷ ys) = ground (arith, length-insert x ys)
