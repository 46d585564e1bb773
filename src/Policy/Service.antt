-- ===== src/Policy/Service.antt =====
-- `PolicyService.authorize` of shiroe/policy/service.py. The layers of the stack and the context of the
-- action are arguments; the layers come from the loader.
pub mod Authorized
use Prim.Native.String.{◌++◌ as str_append}
use shiroe.Prelude.{
  String, Bool, true, false, Option, none, some, List, [], ◌∷◌, contains, ◌==◌, string_eq,
  if◌then◌else◌,
}
use shiroe.Prelude.Json.{Json, str, obj, Fields, end, field}
use shiroe.Policy.Schema.{
  ActionKind, publish, push, merge, destructive, fs_delete, kind_eq, Verdict, allow, deny,
  require_approval, Action, PolicyLayer,
}
use shiroe.Policy.Autonomy.{AutonomyMode}
use shiroe.Policy.Engine.{kind_value, evaluate}
use shiroe.Policy.Approvals.{
  action, ApprovalStatus, pending, approved, rejected, revise, deferred, stale, ApprovalRequest,
}
use shiroe.Policy.ApprovalService.{ApprovalState, Answer, answer, refuse, ask, find_latest_matching}

pub record AuthorizationResult : Type 0 where
  pub verdict : Verdict
  pub reason : String
  pub deciding_layer : String
  pub approval_id : Option String

-- `status.value`
status_value : ApprovalStatus → String
status_value pending = "pending"
status_value approved = "approved"
status_value rejected = "rejected"
status_value revise = "revise"
status_value deferred = "deferred"
status_value stale = "stale"

-- `reason or word`
or_word : Option String → String → String
or_word none word = word
or_word (some reason) word = if reason == "" then word else reason

-- `dict(scope or {...})`
unfoldable pub scope_of : Action → Json → Fields → Fields
scope_of act context end = field "target" (str act.target) (field "context" context end)
scope_of act context (field k v rest) = field k v rest

-- `action.target or action.kind.value`
unfoldable pub requested_of : Action → String
unfolding kind_value
requested_of act = if act.target == "" then kind_value act.kind else act.target

abbrev high_risk : List ActionKind
high_risk = publish ∷ push ∷ merge ∷ destructive ∷ fs_delete ∷ []

-- What a request that is there already answers.
unfoldable pub answered : Verdict → String → ApprovalRequest → AuthorizationResult
unfolding status_value or_word
answered verdict layer prior =
    let (v, reason) : Verdict × String = elim prior.status [
      | approved ↦ (allow, str_append "human-approved: " (or_word prior.decision_reason "approved"))
      | rejected ↦ (deny, str_append "human-rejected: " (or_word prior.decision_reason "rejected"))
      | _ ↦ (
        verdict,
        str_append "awaiting human decision (" (str_append (status_value prior.status) ")"),
      )
    ] in
    record { verdict = v; reason = reason; deciding_layer = layer; approval_id = some prior.id }

module _ (digest_of : Fields → String) (scrub : String → String)
    (first_of : List ApprovalRequest → Option ApprovalRequest) where
  unfoldable pub authorize :
      ApprovalState
      → (act : Action) (context : Json) (stack : List PolicyLayer) (mode : AutonomyMode)
        (graph_id node_id : Option String) (scope : Fields) (new_id now : String)
      → ApprovalState × Answer AuthorizationResult
  unfolding evaluate scope_of requested_of answered ask find_latest_matching
  authorize s act context stack mode graph_id node_id scope new_id now =
      let decision = evaluate act stack mode in
      let current = scope_of act context scope in
      let wanted = requested_of act in
      let kind = some (kind_value act.kind) in
      let (s', asked) = ask digest_of scrub s (record {
        id = new_id;
        approval_type = action;
        requested_action = wanted;
        scope = current;
        reason = decision.reason;
        risk = if contains high_risk act.kind then "high" else "medium";
        graph_id = graph_id;
        node_id = node_id;
        action_kind = kind;
        options = [];
        evidence_refs = [];
        now = now;
      }) in
      elim decision.verdict [
        | require_approval ↦
            elim (find_latest_matching digest_of scrub first_of s graph_id node_id kind wanted
              current) [
                | refuse e ↦ (s, refuse e)
                | answer (some prior) ↦
                    (s, answer (answered require_approval decision.deciding_layer prior))
                | answer none ↦ elim asked [
                  | refuse e ↦ (s', refuse e)
                  | answer r ↦ (
                    s',
                    answer (record {
                      verdict = require_approval;
                      reason = decision.reason;
                      deciding_layer = decision.deciding_layer;
                      approval_id = some r.id;
                    }),
                  )
                ]
              ]
        | v ↦ (
          s,
          answer (record {
            verdict = v;
            reason = decision.reason;
            deciding_layer = decision.deciding_layer;
            approval_id = none;
          }),
        )
      ]
