-- ===== src/Policy/Engine.antt =====
-- shiroe/policy/engine.py: the verdict of the layers, held back where the autonomy mode wants a human.
pub mod Verdicts
use Prim.Native.String.{◌++◌ as str_append}
use shiroe.Prelude.{
  String, ◌≡◌, ◌≢◌, refl, ◌↔◌, ◌⊎◌, inl, inr, true, false, List, contains, arith, if◌then◌else◌,
  Bool-cases,
}
use shiroe.Policy.Schema.{
  ActionKind, fs_read, fs_write, fs_delete, network, secret_read, subprocess, external_write,
  destructive, memory_write, event_write, push, merge, publish, external_message, permission_change,
  budget_escalation, dependency_add, capability_invoke, kind_eq, allow, deny, require_approval,
  Action, Decision, PolicyLayer,
}
use shiroe.Policy.Precedence.{resolve}
use shiroe.Policy.Autonomy.{
  AutonomyMode, suggest, auto_safe, policy_bound, autonomy_gate, always_require_approval,
}

-- `kind.value`
unfoldable pub kind_value : ActionKind → String
kind_value fs_read = "fs.read"
kind_value fs_write = "fs.write"
kind_value fs_delete = "fs.delete"
kind_value network = "network"
kind_value secret_read = "secret.read"
kind_value subprocess = "subprocess"
kind_value external_write = "external.write"
kind_value destructive = "destructive"
kind_value memory_write = "memory.write"
kind_value event_write = "event.write"
kind_value push = "vcs.push"
kind_value merge = "vcs.merge"
kind_value publish = "publish"
kind_value external_message = "external.message"
kind_value permission_change = "permission.change"
kind_value budget_escalation = "budget.escalation"
kind_value dependency_add = "dependency.add"
kind_value capability_invoke = "capability.invoke"

-- `mode.value`
mode_value : AutonomyMode → String
mode_value suggest = "suggest"
mode_value auto_safe = "auto-safe"
mode_value policy_bound = "policy-bound"

-- `f"{value!r}"` of a text without quotes
quoted : String → String
quoted text = str_append "'" (str_append text "'")

held_reason : String → AutonomyMode → ActionKind → String
unfolding kind_value mode_value quoted
held_reason reason mode kind = str_append reason (
    str_append "; but autonomy mode " (
      str_append (quoted (mode_value mode))
        (str_append " requires approval for " (quoted (kind_value kind)))))

unfoldable pub evaluate : Action → List PolicyLayer → AutonomyMode → Decision
unfolding held_reason
evaluate action stack mode =
    let raw = resolve action stack in
    elim raw.verdict [
      | allow ↦ if autonomy_gate action.kind mode then raw else record {
        verdict = require_approval;
        reason = held_reason raw.reason mode action.kind;
        deciding_layer = raw.deciding_layer;
      }
      | _ ↦ raw
    ]
