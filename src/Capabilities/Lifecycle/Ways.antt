-- ===== src/Capabilities/Lifecycle/Ways.antt =====
-- The ways that a capability takes through its states.
use shiroe.Prelude.{ℕ, suc, ◌≤◌, Bool, true, false, some, [], ◌∷◌, contains, ◌≡◌, arith}
use shiroe.Capabilities.Lifecycle.{
  Lifecycle, discovered, quarantined, inspected, approved, benchmarked, active, stale, compromised,
  lifecycle_eq, transition, is_executable, next_state_for_digest_change,
}

-- the approvals since the capability was last in quarantine, after a move
abbrev pub approvals_after : ℕ → (current target : Lifecycle) → ℕ
approvals_after n current quarantined = 0
approvals_after n inspected approved = suc n
approvals_after n current target = n

-- A capability enters as discovered or quarantined, and moves by a transition or by a change of its digest.
pub data Way : ℕ → Lifecycle → Type 0 where
  found : Way 0 discovered
  held : Way 0 quarantined
  moves :
      (n : ℕ) (current target : Lifecycle)
      → Way n current
      → transition current target ≡ some target
      → Way (approvals_after n current target) target
  drifts :
      (n : ℕ) (current : Lifecycle)
      → Way n current
      → Way
          (approvals_after n current (next_state_for_digest_change current))
          (next_state_for_digest_change current)

-- the states that follow an approval
was_approved : Lifecycle → Bool
was_approved state = contains (approved ∷ benchmarked ∷ active ∷ stale ∷ compromised ∷ []) state

moves-was_approved :
    (n : ℕ) (current target : Lifecycle)
    → (was_approved current ≡ true → 1 ≤ n)
    → transition current target ≡ some target
    → was_approved target ≡ true
    → 1 ≤ approvals_after n current target
unfolding was_approved transition contains
moves-was_approved n current target h t w = ground arith

drift-held : (current : Lifecycle) → was_approved (next_state_for_digest_change current) ≡ false
unfolding was_approved next_state_for_digest_change contains
drift-held current = ground arith

Way-was_approved : (n : ℕ) (state : Lifecycle) → Way n state → was_approved state ≡ true → 1 ≤ n
unfolding was_approved contains next_state_for_digest_change
Way-was_approved _ _ found h = ground arith
Way-was_approved _ _ held h = ground arith
Way-was_approved _ _ (moves n current target w t) h =
    moves-was_approved n current target (Way-was_approved n current w) t h
Way-was_approved _ _ (drifts n current w) h = ground (arith, drift-held current)

-- On every way of a capability to an executable state, an approval of an inspected capability follows
-- the last time that it was in quarantine, whether it came there by a transition or by a changed digest.
pub Way-is_executable :
    (n : ℕ) (state : Lifecycle) → Way n state → is_executable state ≡ true → 1 ≤ n
unfolding is_executable was_approved contains
Way-is_executable n state w h =
    let a : was_approved state ≡ true = ground arith in Way-was_approved n state w a
