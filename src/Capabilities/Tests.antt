-- ===== src/Capabilities/Tests.antt =====
-- A capability that is approved, drifts, and is approved again.
use shiroe.Prelude.{◌≤◌, ◌≡◌, refl, true, contains}
use shiroe.Capabilities.Lifecycle.{
  discovered, quarantined, inspected, approved, active, transition, is_executable,
  next_state_for_digest_change,
}
use shiroe.Capabilities.Lifecycle.Ways.{Way, found, moves, drifts, Way-is_executable}

first_approval : Way 1 approved
unfolding transition contains
first_approval =
    moves 0 inspected approved
      (moves 0 quarantined inspected (moves 0 discovered quarantined found refl) refl) refl

after_drift : Way 1 active
unfolding transition contains next_state_for_digest_change
after_drift =
    moves 1 approved active
      (moves 0 inspected approved
        (moves 0 quarantined inspected (drifts 1 approved first_approval) refl) refl)
      refl

active-is_executable : is_executable active ≡ true
unfolding is_executable contains
active-is_executable = refl

Way-is_executable_example : 1 ≤ 1
Way-is_executable_example = Way-is_executable 1 active after_drift active-is_executable
