-- ===== src/Temporal/Fragments.antt =====
-- Pieces of SQL that `_convert_placeholders` passes over in plain SQL, with the positional
-- placeholders that it counts in them.
use mathlib.Core.Path.{subst}
use django_pyturso.Placeholders.Termination.{scan}
use django_pyturso.Placeholders.{step_in, step_sql, step_percent, identifier_quotes}
use django_pyturso.Temporal.{wrap}
use django_pyturso.Prelude.{
  ℕ, ◌+◌, ◌≡◌, refl, ap, ◌∙◌, Bool, true, false, ◌&&◌, none, [], ◌∷◌, ◌++◌, Text, follows, codes,
  append_assoc, arith, append-nil,
}
use django_pyturso.Temporal.Rounds.{
  round, passes, passes-Passed, is_nonempty, is_boundary, IsFragment,
}

-- A text that begins with a boundary and has no placeholder.
abbrev pub closes : Text → Bool
closes t = is_nonempty t && is_boundary t && passes false false t

nil-IsFragment : IsFragment 0 []
nil-IsFragment rest h s k = (s, refl, (k, omega arith, refl, refl))

module _ (n : ℕ) where
  pub constant_then-IsFragment :
      (a u : Text) → passes false false a ≡ true → IsFragment n u → IsFragment n (a ++ u)
  constant_then-IsFragment a u p f rest h s k =
      let (s1, e, (a1, b1, c1, d1)) =
        passes-Passed false false a (u ++ rest) s (λ q. ground arith) p k in
      let (s2, e2, (a2, b2, c2, d2)) = f rest h s1 a1 in
      (
        s2,
        ap (scan none s) (append_assoc a u rest) ∙ e ∙ e2,
        (a2, omega (arith, b1, b2), c2 ∙ c1, d2 ∙ d1),
      )

  pub hole_then-IsFragment :
      (m : ℕ) (t u : Text)
      → IsFragment m t
      → (is_nonempty u && is_boundary u) ≡ true
      → IsFragment n u
      → IsFragment (m + n) (t ++ u)
  hole_then-IsFragment m t u ft b fu rest h s k =
      let (s1, e, (a1, b1, c1, d1)) = ft (u ++ rest) (starts u b) s k in
      let (s2, e2, (a2, b2, c2, d2)) = fu rest h s1 a1 in
      (
        s2,
        ap (scan none s) (append_assoc t u rest) ∙ e ∙ e2,
        (a2, omega (arith, b1, b2), c2 ∙ c1, d2 ∙ d1),
      )
    where
      starts : (v : Text) → (is_nonempty v && is_boundary v) ≡ true → is_boundary (v ++ rest) ≡ true
      starts [] q = ground arith
      starts (c ∷ v) q = q

pub constant-IsFragment : (a : Text) → passes false false a ≡ true → IsFragment 0 a
constant-IsFragment a p =
    subst (IsFragment 0) (append-nil a) (constant_then-IsFragment 0 a [] p nil-IsFragment)

-- An expression between two constants.
pub wrap-IsFragment :
    (n : ℕ) (a t b : Text)
    → passes false false a ≡ true
    → closes b ≡ true
    → IsFragment n t
    → IsFragment n (wrap a t b)
unfolding passes wrap
wrap-IsFragment n a t b p q f = constant_then-IsFragment n a (t ++ b) p (
    subst (λ m. IsFragment m (t ++ b)) (omega arith)
      (hole_then-IsFragment 0 n t b f (ground (arith, q))
        (constant-IsFragment b (ground (arith, q)))))

-- An expression between a constant and a text that has expressions too.
pub wrap_then-IsFragment :
    (n m : ℕ) (a t u : Text)
    → passes false false a ≡ true
    → (is_nonempty u && is_boundary u) ≡ true
    → IsFragment n t
    → IsFragment m u
    → IsFragment (n + m) (wrap a t u)
unfolding wrap
wrap_then-IsFragment n m a t u p q f g =
    constant_then-IsFragment (n + m) a (t ++ u) p (hole_then-IsFragment m n t u f q g)

-- A text that begins with a constant's boundary.
abbrev pub starts : Text → Bool
starts t = is_nonempty t && is_boundary t

pub starts-wrap : (a t b : Text) → starts a ≡ true → starts (wrap a t b) ≡ true
unfolding wrap
starts-wrap [] t b h = ground arith
starts-wrap (c ∷ a) t b h = h

-- A constant that may end with a literal.
pub literal-IsFragment : (a : Text) → passes true false a ≡ true → IsFragment 0 a
literal-IsFragment a p rest h s k = passes-Passed true false a rest s (λ _. bounded rest h) p k
  where
    bounded : (t : Text) → is_boundary t ≡ true → follows b'\'' t ≡ false
    bounded [] q = refl
    bounded (c ∷ t) q = ground arith

-- A placeholder is a fragment.
pub placeholder-IsFragment : IsFragment 1 (codes "%s")
unfolding step_in step_sql step_percent identifier_quotes
placeholder-IsFragment rest h s k = (
  _,
  round s
      (record s { converted = s.converted ++ codes "?"; positional_count = s.positional_count + 1 })
      b'%' (b's' ∷ rest) rest (ground (arith, k)),
  (k, refl, refl, refl),
)
