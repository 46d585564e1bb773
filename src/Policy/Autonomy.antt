-- ===== src/Policy/Autonomy.antt =====
-- shiroe/policy/autonomy.py: which kinds of action a mode may run without a human.
use shiroe.Prelude.{Bool, true, false, List, [], ◌∷◌, contains, if◌then◌else◌}
use shiroe.Policy.Schema.{
  ActionKind, fs_read, fs_delete, secret_read, destructive, memory_write, event_write, push, merge,
  publish, external_message, permission_change, budget_escalation, dependency_add,
  capability_invoke, kind_eq,
}

pub data AutonomyMode : Type 0 where
  suggest auto_safe policy_bound : AutonomyMode

abbrev pub always_require_approval : List ActionKind
always_require_approval =
    push ∷ merge ∷ publish ∷ external_message ∷ fs_delete ∷ destructive ∷ secret_read
    ∷ dependency_add ∷ permission_change ∷ budget_escalation ∷ []

abbrev pub reversible_kinds : List ActionKind
reversible_kinds = fs_read ∷ memory_write ∷ event_write ∷ capability_invoke ∷ []

unfoldable pub autonomy_gate : ActionKind → AutonomyMode → Bool
unfolding contains
autonomy_gate kind mode = if contains always_require_approval kind then false else elim mode [
  | suggest ↦ false
  | auto_safe ↦ contains reversible_kinds kind
  | policy_bound ↦ true
]
