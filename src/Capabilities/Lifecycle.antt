-- ===== src/Capabilities/Lifecycle.antt =====
-- shiroe/capabilities/lifecycle.py. A state is one of the words of `LIFECYCLE_STATES`; a word that is none
-- of them has no transition and is not executable.
pub mod Ways
use shiroe.Prelude.{
  ℕ, String, Bool, true, false, Option, none, some, List, [], ◌∷◌, contains, ◌==◌, string_eq, ◌≡◌,
  refl, Equatable, enum_eq, nth_or, if◌then◌else◌,
}

pub data Lifecycle : Type 0 where
  discovered quarantined inspected approved benchmarked active stale revoked compromised : Lifecycle

abbrev pub lifecycle_states : List Lifecycle
lifecycle_states =
    discovered ∷ quarantined ∷ inspected ∷ approved ∷ benchmarked ∷ active ∷ stale ∷ revoked
    ∷ compromised ∷ []

abbrev pub lifecycle_code : Lifecycle → ℕ
lifecycle_code discovered = 0
lifecycle_code quarantined = 1
lifecycle_code inspected = 2
lifecycle_code approved = 3
lifecycle_code benchmarked = 4
lifecycle_code active = 5
lifecycle_code stale = 6
lifecycle_code revoked = 7
lifecycle_code compromised = 8

pub lifecycle_code-back : (a d : Lifecycle) → nth_or lifecycle_states (lifecycle_code a) d ≡ a
unfolding nth_or
lifecycle_code-back discovered d = refl
lifecycle_code-back quarantined d = refl
lifecycle_code-back inspected d = refl
lifecycle_code-back approved d = refl
lifecycle_code-back benchmarked d = refl
lifecycle_code-back active d = refl
lifecycle_code-back stale d = refl
lifecycle_code-back revoked d = refl
lifecycle_code-back compromised d = refl

instance abbrev pub lifecycle_eq : Equatable Lifecycle
lifecycle_eq = enum_eq lifecycle_states lifecycle_code lifecycle_code-back

-- `_TRANSITIONS`
unfoldable pub transitions : Lifecycle → List Lifecycle
transitions discovered = quarantined ∷ []
transitions quarantined = inspected ∷ revoked ∷ []
transitions inspected = approved ∷ revoked ∷ quarantined ∷ []
transitions approved = benchmarked ∷ active ∷ stale ∷ revoked ∷ compromised ∷ quarantined ∷ []
transitions benchmarked = active ∷ stale ∷ revoked ∷ compromised ∷ quarantined ∷ []
transitions active = stale ∷ revoked ∷ compromised ∷ quarantined ∷ []
transitions stale = active ∷ revoked ∷ quarantined ∷ []
transitions revoked = []
transitions compromised = revoked ∷ quarantined ∷ []

unfoldable pub can_transition : Lifecycle → Lifecycle → Bool
unfolding transitions
can_transition current target = contains (transitions current) target

-- `transition`; `none` is the InvalidTransition
unfoldable pub transition : Lifecycle → Lifecycle → Option Lifecycle
unfolding can_transition
transition current target = if can_transition current target then some target else none

-- `EXECUTABLE_STATES`
abbrev pub executable_states : List Lifecycle
executable_states = approved ∷ benchmarked ∷ active ∷ []

unfoldable pub is_executable : Lifecycle → Bool
is_executable state = contains executable_states state

unfoldable pub next_state_for_digest_change : Lifecycle → Lifecycle
next_state_for_digest_change current =
    if contains (revoked ∷ []) current then current else quarantined
