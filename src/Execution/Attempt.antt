-- ===== src/Execution/Attempt.antt =====
-- One attempt at a node, and the bounded retry: the `while attempts_done < max_attempts` of
-- `ExecutionSupervisor.run` in shiroe/execution/supervisor.py, with the functions that it calls. The log
-- keeps the texts of the work events here; waiting between attempts is left out.
use Prim.Native.String.{◌++◌ as str_append}
use shiroe.Prelude.{
  ℕ, zero, suc, String, true, false, ◌&&◌, not, Option, none, some, List, [], ◌∷◌, ◌==◌, string_eq,
  if◌then◌else◌,
}
use shiroe.Prelude.Json.{Fields, get_field, truthy}
use shiroe.Policy.Schema.{Verdict, allow, deny, require_approval}
use shiroe.Policy.Service.{AuthorizationResult}
use shiroe.Work.Schema.{NodeStatus, WorkNode}
use shiroe.Work.Store.{no_such_id, find_node, set_node_status, record_output}
use shiroe.Execution.Budget.{spend_of, charge}
use shiroe.Execution.Services.{Invoked, returned, raised, Reviewed, check, review_raised, Services}
use shiroe.Execution.Results.{
  list_text, missing_outputs, has_evidence, output_of, or_failed, held_text, asked,
}
use shiroe.Execution.Attempts.{as_is, record_attempt, finish_attempt}
use shiroe.Execution.Tried.{
  RunState, Tried, done, returns, caught, uncaught, in_world, then_work, pause_try, fail_attempt,
}

module _ {World : Type 0} where
  -- what the loop `for required_id in node.requires` raises
  unfoldable pub gate_error : Services World → World → List String → Option String
  gate_error services x [] = none
  gate_error services x (required_id ∷ more) = elim (services.executable x required_id) [
    | some message ↦ some message
    | none ↦ gate_error services x more
  ]

  -- `_independent_review_passes`; a review that raises what it does not catch gives the text
  unfoldable pub review_passes : Services World → RunState World → WorkNode → World × Reviewed
  unfolding get_field truthy find_node
  review_passes services s node = elim (get_field "reviewer_capability_id" node.metadata) [
    | none ↦ (s.world, check false)
    | some reviewer ↦ if not (truthy reviewer) then (s.world, check false) else elim node.requires [
      | [] ↦ (s.world, check false)
      | executor ∷ more ↦
          if executor == ""
          then (s.world, check false)
          else services.review s.world node.id (output_of node.id s.work) executor reviewer
    ]
  ]

  unfoldable pub mark_completed : RunState World → (node_id : String) → (version : ℕ) → Tried World
  unfolding then_work set_node_status
  mark_completed s node_id version =
      then_work s (set_node_status as_is s.work node_id NodeStatus.completed version) done

  -- after the review: the completion, or a pause for a human
  unfoldable pub after_review :
      RunState World
      → (graph_id : String) → WorkNode
      → (version : ℕ) → World × Reviewed
      → Tried World
  unfolding mark_completed pause_try
  after_review s graph_id node version (x, review_raised message) = caught (in_world s x) message
  after_review s graph_id node version (x, check true) =
      mark_completed (in_world s x) node.id version
  after_review s graph_id node version (x, check false) =
      pause_try (in_world s x) graph_id node.id version "independent_review" []

  -- after the output is recorded: the review, and the completion
  unfoldable pub complete :
      Services World → RunState World → (graph_id : String) → WorkNode → (version : ℕ) → Tried World
  unfolding review_passes after_review mark_completed
  complete services s graph_id node version =
      if node.independent_review
      then after_review s graph_id node version (review_passes services s node)
      else mark_completed s node.id version

  -- the output, with the version that the node has now
  unfoldable pub store_output :
      Services World
      → RunState World
      → (graph_id : String) → WorkNode
      → (output : Fields) → Tried World
  unfolding find_node then_work record_output complete
  store_output services s graph_id node output = elim (find_node node.id s.work.tables.nodes) [
    | none ↦ uncaught (no_such_id node.id)
    | some row ↦
        then_work s (record_output as_is s.work node.id output row.state_version)
          (λ t. complete services t graph_id node (suc row.state_version))
  ]

  -- a result that is ok and delivers: the charge, the attempt and the output
  unfoldable pub deliver :
      Services World
      → RunState World
      → (graph_id : String) → WorkNode
      → (attempt_id : String) → (output usage : Fields) → Tried World
  unfolding charge spend_of then_work finish_attempt store_output
  deliver services s graph_id node attempt_id output usage =
      let charged = record s { budget = charge s.budget (spend_of usage) } in
      then_work charged (finish_attempt charged.work attempt_id "completed" none usage)
        (λ t. store_output services t graph_id node output)

  -- a result that is ok: the outputs and the evidence
  unfoldable pub accept :
      Services World
      → RunState World
      → (graph_id : String) → WorkNode
      → (attempt_id : String) → (output usage : Fields) → Tried World
  unfolding missing_outputs has_evidence fail_attempt deliver
  accept services s graph_id node attempt_id output usage =
      elim (missing_outputs output node.expected_outputs) [
        | name ∷ names ↦
            let missing = str_append "[" (str_append (list_text (name ∷ names)) "]") in
            fail_attempt s attempt_id (some (str_append "missing expected outputs: " missing)) usage
              (str_append "node "
                (str_append node.id (str_append " missing expected outputs: " missing)))
        | [] ↦
            if node.evidence_required && not (has_evidence output)
            then fail_attempt s attempt_id (some "evidence_required but none produced") usage
                (str_append "node " (str_append node.id " completed without required evidence"))
            else deliver services s graph_id node attempt_id output usage
      ]

  -- what comes of the invocation
  unfoldable pub judge :
      Services World
      → RunState World
      → (graph_id : String) → WorkNode
      → (attempt_id : String) → World × Invoked
      → Tried World
  unfolding fail_attempt accept
  judge services s graph_id node attempt_id (x, raised message) = caught (in_world s x) message
  judge services s graph_id node attempt_id (x, returned true error output usage) =
      accept services (in_world s x) graph_id node attempt_id output usage
  judge services s graph_id node attempt_id (x, returned false error output usage) =
      fail_attempt (in_world s x) attempt_id error usage (or_failed error)

  -- the invocation, its attempt recorded before
  unfoldable pub invoke_node :
      Services World
      → RunState World
      → (graph_id : String) → WorkNode
      → (capability_id : String) → Tried World
  unfolding record_attempt judge
  invoke_node services s graph_id node capability_id =
      let (x, attempt_id) : World × String = services.new_id s.world in
      let started = record s {
        work = record_attempt s.work attempt_id graph_id node.id capability_id "running";
        world = x;
      } in
      judge services started graph_id node attempt_id
        (services.invoke x graph_id node capability_id)

  -- what the authorization says
  unfoldable pub on_verdict :
      Services World
      → RunState World
      → (graph_id : String) → WorkNode
      → (capability_id : String) → (version : ℕ) → AuthorizationResult
      → Verdict
      → Tried World
  unfolding pause_try invoke_node
  on_verdict services s graph_id node capability_id version auth require_approval =
      pause_try s graph_id node.id version (held_text auth) (asked auth.approval_id)
  on_verdict services s graph_id node capability_id version auth deny = caught s auth.reason
  on_verdict services s graph_id node capability_id version auth allow =
      invoke_node services s graph_id node capability_id

  -- the body of the `try`; `version` is that of the node when the run came to it
  unfoldable pub try_node :
      Services World
      → RunState World
      → (graph_id : String) → WorkNode
      → (capability_id : String) → (version : ℕ) → Tried World
  unfolding gate_error on_verdict
  try_node services s graph_id node capability_id version =
      elim (gate_error services s.world node.requires) [
        | some message ↦ caught s message
        | none ↦
            let (x, auth) : World × AuthorizationResult =
              services.authorize s.world graph_id node.id capability_id in
            on_verdict services (in_world s x) graph_id node capability_id version auth auth.verdict
      ]

  -- an error that the loop catches leads to the next attempt
  unfoldable pub or_retry : Tried World → (RunState World → String → Tried World) → Tried World
  or_retry (caught s message) next = next s message
  or_retry (done s) next = done s
  or_retry (returns s stop) next = returns s stop
  or_retry (uncaught f) next = uncaught f

  -- `while attempts_done < max_attempts`: `left` is what is left of the attempts, and `last` the text of the
  -- last error
  unfoldable pub attempts :
      Services World
      → (left : ℕ) → RunState World
      → (graph_id : String) → WorkNode
      → (capability_id : String) → (version : ℕ) → (last : String) → Tried World
  unfolding try_node or_retry
  attempts services zero s graph_id node capability_id version last = caught s last
  attempts services (suc left) s graph_id node capability_id version last =
      or_retry (try_node services s graph_id node capability_id version)
        (λ t message. attempts services left t graph_id node capability_id version message)
