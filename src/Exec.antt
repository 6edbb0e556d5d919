-- ===== src/Exec.antt =====
-- Python code that mutates objects and may raise: an action on a state. What was written before a
-- raise stays written, so the state comes back beside the exception too.
use django_pyturso.Prelude.{Bool, true, false, ℕ, ◌≡◌, refl, ◌⊎◌, inl, inr, arith}

-- The exceptions that the backend raises or catches. `driver` is an instance of `Database.Error`,
-- `interrupt` any other exception that comes out of a call, each with a number that tells it apart.
pub data Exc : Type 0 where
  driver interrupt : ℕ → Exc
  transaction_management database_error not_supported improperly_configured : Exc
  operational_error integrity_error : Exc
  assertion type_error value_error runtime_error key_error : Exc
  os_error audit_error : Exc
  system_exit : ℕ → Exc

pub data Answer {ℓ} (A : Type ℓ) : Type ℓ where
  ok : A → Answer A
  raised : Exc → Answer A

abbrev pub Exec {ℓ} : Type ℓ → Type ℓ → Type ℓ
Exec S A = S → Answer A × S

module _ {ℓ} {S A : Type ℓ} where
  abbrev pub pure : A → Exec S A
  pure a s = (ok a, s)

  abbrev pub raise : Exc → Exec S A
  raise e s = (raised e, s)

  abbrev pub lift : Answer A → Exec S A
  lift r s = (r, s)

module _ {ℓ} {S A B : Type ℓ} where
  abbrev pub continue : Answer A × S → (A → Exec S B) → Answer B × S
  continue (ok a, s) f = f a s
  continue (raised e, s) f = (raised e, s)

  infixl 5 ◌>>=◌ ◌>>◌
  abbrev pub ◌>>=◌ : Exec S A → (A → Exec S B) → Exec S B
  ◌>>=◌ m f s = continue (m s) f

  abbrev pub ◌>>◌ : Exec S A → Exec S B → Exec S B
  m >> n = m >>= λ _. n

module _ {ℓ} {S A : Type ℓ} where
  -- `try: m` with a handler for every exception.
  abbrev pub handle : Answer A × S → (Exc → Exec S A) → Answer A × S
  handle (ok a, s) f = (ok a, s)
  handle (raised e, s) f = f e s

  abbrev pub catch : Exec S A → (Exc → Exec S A) → Exec S A
  catch m f s = handle (m s) f

-- `self.attribute = …`
abbrev pub modify {ℓ} : {S : Type ℓ} → (S → S) → S → Answer (Unit {ℓ}) × S
modify f s = (ok tt, f s)

abbrev pub is_driver : Exc → Bool
is_driver (driver _) = true
is_driver _ = false

pub Answer-cases {ℓ} :
    {A : Type ℓ} (r : Answer A) → ((a : A) × (r ≡ ok a)) ⊎ ((e : Exc) × (r ≡ raised e))
Answer-cases (ok a) = inl (a, refl)
Answer-cases (raised e) = inr (e, refl)

pub continue-pure {ℓ} :
    {S A B : Type ℓ} (b : B) (p : Answer A × S) → (continue p (λ _. pure b)).1 ≡ p.1
continue-pure b (ok a, s) = refl
continue-pure b (raised e, s) = refl

-- A postcondition of a sequence: it holds of an early raise and of what comes after a return.
pub continue-cases {ℓ κ} :
    {S A B : Type ℓ} (Q : Answer B × S → Type κ) (p : Answer A × S) (f : A → Exec S B)
    → ((x : Exc) → p.0 ≡ raised x → Q (raised x, p.1))
    → ((a : A) → p.0 ≡ ok a → Q (f a p.1))
    → Q (continue p f)
continue-cases Q (ok a, s) f bad good = good a refl
continue-cases Q (raised x, s) f bad good = bad x refl

-- What comes after a step that returned.
pub continue-ok {ℓ} :
    {S A B : Type ℓ} (p : Answer A × S) (f : A → Exec S B) (a : A)
    → p.0 ≡ ok a
    → continue p f ≡ f a p.1
continue-ok (ok b, s) f a h = cc
continue-ok (raised x, s) f a h = cc

-- The sequence of fallible steps.
infixl 5 ◌then_do◌
abbrev pub ◌then_do◌ {ℓ κ} : {A : Type ℓ} {B : Type κ} → Answer A → (A → Answer B) → Answer B
ok a then_do f = f a
raised x then_do f = raised x

-- A postcondition of a sequence of fallible steps.
pub then_do-rule {ℓ κ μ} :
    {A : Type ℓ} {B : Type κ} (Q : Answer B → Type μ) (a : Answer A) (f : A → Answer B)
    → ((x : Exc) → Q (raised x))
    → ((v : A) → a ≡ ok v → Q (f v))
    → Q (a then_do f)
then_do-rule Q (ok v) f bad good = good v refl
then_do-rule Q (raised x) f bad good = bad x

-- A sequence that returned: so did its first step, and what comes after it.
pub then_do-ok {ℓ κ} :
    {A : Type ℓ} {B : Type κ} (a : Answer A) (f : A → Answer B) (b : B)
    → (a then_do f) ≡ ok b
    → (v : A) × (a ≡ ok v) × (f v ≡ ok b)
then_do-ok (ok v) f b h = (v, refl, h)
then_do-ok (raised x) f b h = ground arith
