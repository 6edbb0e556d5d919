-- ===== src/ForeignKeys/Enforcement.antt =====
-- `_read_foreign_key_state`, `disable_constraint_checking` and `enable_constraint_checking` of
-- src/django_pyturso/base.py.
use django_pyturso.Exec.{
  Answer, ok, raised, Exec, pure, raise, lift, ◌>>=◌, ◌>>◌, continue, database_error, not_supported,
  continue-cases,
}
use django_pyturso.Prelude.{
  ℕ, ◌≤◌, ◌≡◌, refl, ◌⊎◌, inl, inr, Bool, true, false, ◌||◌, Option, none, some, ◌==◌,
  if◌then◌else◌, arith, Bool-cases, ◌∙◌, ap, ==_iff,
}

-- `PRAGMA foreign_keys` with its first value, and the pragma that sets it, each with a cursor of
-- its own. `D` is the state of the connection.
pub record PragmaCalls : Type 1 where
  pub D : Type 0
  pub read_foreign_keys : D → Answer (Option ℕ) × D
  pub write_foreign_keys : Bool → D → Answer (Unit {0}) × D

abbrev pub valid_state : Option ℕ → Answer ℕ
valid_state none = raised database_error
valid_state (some n) = if (n == 0) || (n == 1) then ok n else raised database_error

module _ (calls : PragmaCalls) where
  open calls use {D, read_foreign_keys, write_foreign_keys}

  unfoldable pub read_foreign_key_state : Exec D ℕ
  read_foreign_key_state = do row ← read_foreign_keys; lift (valid_state row)

  -- The pragma and its readback.
  unfoldable pub write_and_confirm : Bool → ℕ → Exec D (Unit {0})
  unfolding read_foreign_key_state
  write_and_confirm enabled expected = do
    write_foreign_keys enabled
    state ← read_foreign_key_state
    if state == expected then pure tt else raise not_supported

  unfoldable pub disable_constraint_checking : Exec D Bool
  unfolding read_foreign_key_state write_and_confirm
  disable_constraint_checking = do
    state ← read_foreign_key_state
    if state == 0 then pure false else (write_and_confirm false 0 >> pure true)

  unfoldable pub enable_constraint_checking : Exec D (Unit {0})
  unfolding read_foreign_key_state write_and_confirm
  enable_constraint_checking = do
    state ← read_foreign_key_state
    if state == 1 then pure tt else write_and_confirm true 1

  -- What is assumed of the engine: a readback that answers reports the state `enforced`, and
  -- reading does not change it.
  pub record Reports (enforced : D → ℕ) : Type 0 where
    pub reads :
        (d : D) (n : ℕ)
        → (read_foreign_keys d).0 ≡ ok (some n)
        → enforced (read_foreign_keys d).1 ≡ n
    pub reading : (d : D) → enforced (read_foreign_keys d).1 ≡ enforced d

  module _ (enforced : D → ℕ) (reports : Reports enforced) where
    -- A state that was read is the state, and is 0 or 1.
    abbrev Reads : Answer ℕ × D → Type 0
    Reads (ok n, d) = (enforced d ≡ n) × (n ≤ 1)
    Reads (raised _, d) = Unit

    valid_state-Reads :
        (row : Option ℕ) (d : D)
        → ((n : ℕ) → row ≡ some n → enforced d ≡ n)
        → Reads (valid_state row, d)
    valid_state-Reads none d h = tt
    valid_state-Reads (some n) d h = elim (Bool-cases ((n == 0) || (n == 1))) [
      | inl y ↦ simp y (h n refl, ground (arith, y))
      | inr other ↦ simp other tt
    ]

    read_foreign_key_state-Reads : (d : D) → Reads (read_foreign_key_state d)
    unfolding read_foreign_key_state
    read_foreign_key_state-Reads d =
        continue-cases Reads (read_foreign_keys d) _ (λ x q. tt)
          (λ row q. valid_state-Reads row _ (λ n e. reports.reads d n (q ∙ ap ok e)))

    -- After a disabling that returned, enforcement is off; the answer says whether it was on.
    abbrev pub IsDisabled : ℕ → Answer Bool × D → Type 0
    IsDisabled before (ok changed, d) =
        (enforced d ≡ 0) × (((changed ≡ true) × (before ≡ 1)) ⊎ ((changed ≡ false) × (before ≡ 0)))
    IsDisabled before (raised _, d) = Unit

    returned-Reads :
        (p : Answer ℕ × D) (n : ℕ) → p.0 ≡ ok n → Reads p → (enforced p.1 ≡ n) × (n ≤ 1)
    returned-Reads (ok m, d) n e h = (ground (arith, h.0), ground (arith, h.1))
    returned-Reads (raised _, d) n e h = ground arith

    enforced-read_foreign_key_state : (d : D) → enforced (read_foreign_key_state d).1 ≡ enforced d
    unfolding read_foreign_key_state
    enforced-read_foreign_key_state d = ground (arith, reports.reading d)

    -- A change that was confirmed.
    abbrev Confirms : ℕ → Answer (Unit {0}) × D → Type 0
    Confirms n (ok _, d) = enforced d ≡ n
    Confirms n (raised _, d) = Unit

    confirm-Confirms :
        (b : Bool) (n : ℕ) (d : D)
        → (b ≡ true → enforced d ≡ n)
        → Confirms n ((if b then pure tt else raise not_supported) d)
    confirm-Confirms true n d h = h refl
    confirm-Confirms false n d h = tt

    write_and_confirm-Confirms : (b : Bool) (n : ℕ) (d : D) → Confirms n (write_and_confirm b n d)
    unfolding write_and_confirm
    write_and_confirm-Confirms b n d =
        continue-cases (Confirms n) (write_foreign_keys b d) _ (λ x q. tt)
          (λ _ q.
            continue-cases (Confirms n) (read_foreign_key_state _) _ (λ x r. tt)
              (λ state r. confirm-Confirms (state == n) n _ (λ same.
                (returned-Reads _ state r (read_foreign_key_state-Reads _)).0
                ∙ (==_iff state n).0 same)))

    change-IsDisabled :
        (p : Answer (Unit {0}) × D) (before : ℕ)
        → Confirms 0 p
        → before ≡ 1
        → IsDisabled before (continue p (λ _. pure true))
    change-IsDisabled (ok _, d) before h one = (h, inl (refl, one))
    change-IsDisabled (raised _, d) before h one = tt

    off-IsDisabled :
        (b : Bool) (before : ℕ) (d : D)
        → (b ≡ true → (enforced d ≡ 0) × (before ≡ 0))
        → (b ≡ false → before ≡ 1)
        → IsDisabled before ((if b then pure false else (write_and_confirm false 0 >> pure true)) d)
    off-IsDisabled true before d h k = ((h refl).0, inr (refl, (h refl).1))
    off-IsDisabled false before d h k =
        change-IsDisabled (write_and_confirm false 0 d) before
          (write_and_confirm-Confirms false 0 d) (k refl)

    -- `disable_constraint_checking` returns only with enforcement off, and its answer is true
    -- exactly if enforcement was on before the call, so that Django turns it on again only then.
    pub disable_constraint_checking-IsDisabled :
        (d : D) → IsDisabled (enforced d) (disable_constraint_checking d)
    unfolding disable_constraint_checking
    disable_constraint_checking-IsDisabled d =
        continue-cases (IsDisabled (enforced d)) (read_foreign_key_state d) _ (λ x q. tt)
          (λ n q.
            let (state, small) =
              returned-Reads (read_foreign_key_state d) n q (read_foreign_key_state-Reads d) in
            let same = enforced-read_foreign_key_state d in
            off-IsDisabled (n == 0) (enforced d) (read_foreign_key_state d).1
              (λ z. ground (arith, state, same, z)) (λ z. ground (arith, state, same, small, z)))

    on-Confirms :
        (b : Bool) (d : D)
        → (b ≡ true → enforced d ≡ 1)
        → Confirms 1 ((if b then pure tt else write_and_confirm true 1) d)
    on-Confirms true d h = h refl
    on-Confirms false d h = write_and_confirm-Confirms true 1 d

    -- `enable_constraint_checking` returns only with enforcement on.
    enable_constraint_checking-Confirms : (d : D) → Confirms 1 (enable_constraint_checking d)
    unfolding enable_constraint_checking
    enable_constraint_checking-Confirms d =
        continue-cases (Confirms 1) (read_foreign_key_state d) _ (λ x q. tt)
          (λ n q.
            on-Confirms (n == 1) (read_foreign_key_state d).1
              (λ z. (returned-Reads _ n q (read_foreign_key_state-Reads d)).0 ∙ (==_iff n 1).0 z))
