-- ===== src/Execution/Handling.antt =====
-- One ready node: the body of `for node_id in ready` of `ExecutionSupervisor.run` in
-- shiroe/execution/supervisor.py. An error that nothing catches ends the run.
use shiroe.Prelude.{
  ℕ, ◌-◌, String, Bool, true, false, none, some, List, [], ◌∷◌, ltb, ◌==◌, string_eq, if◌then◌else◌,
}
use shiroe.Prelude.Json.{obj, Fields, end, get_field}
use shiroe.Policy.Approvals.{status_eq}
use shiroe.Work.Schema.{NodeKind, node_kind_eq, GraphStatus, NodeStatus, node_status_eq, WorkNode}
use shiroe.Work.Tables.{NodeRow}
use shiroe.Work.Store.{
  WorkFault, no_such_id, did, raises, find_node, set_graph_status, set_node_status,
}
use shiroe.Execution.Budget.{would_exceed, spend_of}
use shiroe.Execution.Services.{Services}
use shiroe.Execution.Tried.{
  RunState, Stop, Tried, done, returns, caught, uncaught, at_work, in_world,
}
use shiroe.Execution.Attempt.{attempts}
use shiroe.Execution.Attempts.{as_is, attempt_count}
use shiroe.Execution.Refresh.{task_approval_current, ensure_approval_request}

-- What comes of one ready node: the run goes on, or it returns.
pub data Handled (World : Type 0) : Type 0 where
  went_on : RunState World → Handled World
  stops : RunState World → Stop → Handled World
  breaks : WorkFault → Handled World

unfoldable pub projection_at : WorkNode → Fields
unfolding get_field
projection_at node = elim (get_field "budget_projection" node.metadata) [
  | some (obj fields) ↦ fields
  | _ ↦ end
]

-- `max_attempts - attempts_done`, with `max(1, node.retry.max_attempts)`
unfoldable pub attempts_left : ℕ → ℕ → ℕ
attempts_left max_attempts attempts_done =
    (if ltb max_attempts 1 then 1 else max_attempts) - attempts_done

module _ {World : Type 0} where
  -- a node set to a status, the graph set to one, and the return
  unfoldable pub stop_at :
      RunState World
      → (graph_id node_id : String) → (version : ℕ) → NodeStatus
      → Stop
      → Handled World
  unfolding set_node_status set_graph_status
  stop_at s graph_id node_id version status stop =
      elim (set_node_status as_is s.work node_id status version) [
        | raises f ↦ breaks f
        | did w ↦ elim (set_graph_status as_is w graph_id stop.status) [
          | raises f ↦ breaks f
          | did v ↦ stops (at_work s v) stop
        ]
      ]

  unfoldable pub pause_at :
      RunState World
      → (graph_id node_id : String) → (version : ℕ) → String
      → List String
      → Handled World
  unfolding stop_at
  pause_at s graph_id node_id version reason pending =
      stop_at s graph_id node_id version NodeStatus.blocked
        (record { status = GraphStatus.paused; reason = reason; pending_approvals = pending })

  -- after the loop of attempts
  unfoldable pub settle : (graph_id node_id : String) → Tried World → Handled World
  unfolding find_node set_graph_status stop_at
  settle graph_id node_id (done s) = went_on s
  settle graph_id node_id (returns s stop) = stops s stop
  settle graph_id node_id (uncaught f) = breaks f
  settle graph_id node_id (caught s message) =
      let stop : Stop = record {
        status = GraphStatus.failed;
        reason = message;
        pending_approvals = [];
      } in
      elim (find_node node_id s.work.tables.nodes) [
        | none ↦ breaks (no_such_id node_id)
        | some latest ↦ elim (latest.status == NodeStatus.failed) [
          | false ↦ stop_at s graph_id node_id latest.state_version NodeStatus.failed stop
          | true ↦ elim (set_graph_status as_is s.work graph_id GraphStatus.failed) [
            | raises f ↦ breaks f
            | did v ↦ stops (at_work s v) stop
          ]
        ]
      ]

  -- a task without requirements, which has no executor: its review never passes
  unfoldable pub finish_plain : RunState World → (graph_id : String) → NodeRow → Handled World
  unfolding pause_at set_node_status
  finish_plain s graph_id row =
      if row.node.independent_review
      then pause_at s graph_id row.node.id row.state_version "independent_review" []
      else elim (set_node_status as_is s.work row.node.id NodeStatus.completed row.state_version) [
        | raises f ↦ breaks f
        | did w ↦ went_on (at_work s w)
      ]

module _ {World : Type 0} (services : Services World) where
  -- a task and the first capability that it requires: the budget, and the attempts that are left
  unfoldable pub run_capability :
      RunState World → (graph_id : String) → NodeRow → (capability_id : String) → Handled World
  unfolding would_exceed spend_of projection_at pause_at attempts_left attempt_count attempts settle
  run_capability s graph_id row capability_id =
      elim (would_exceed s.budget (spend_of (projection_at row.node))) [
        | some axis ↦ pause_at s graph_id row.node.id row.state_version "budget" []
        | none ↦
            let left =
              attempts_left row.node.retry.max_attempts
                (attempt_count row.node.id s.work.tables.attempts) in
            settle graph_id row.node.id
              (attempts services left s graph_id row.node capability_id row.state_version "None")
      ]

  unfoldable pub run_task : RunState World → (graph_id : String) → NodeRow → Handled World
  unfolding finish_plain run_capability
  run_task s graph_id row = elim row.node.requires [
    | [] ↦ finish_plain s graph_id row
    | capability_id ∷ more ↦ run_capability s graph_id row capability_id
  ]

  -- the request of an approval and the pause
  unfoldable pub await_approval :
      RunState World → (graph_id : String) → NodeRow → (action_kind reason : String) → Handled World
  unfolding ensure_approval_request pause_at
  await_approval s graph_id row action_kind reason =
      let (x, approval_id) : World × String =
        ensure_approval_request services s.world graph_id row.node action_kind in
      pause_at (in_world s x) graph_id row.node.id row.state_version reason (approval_id ∷ [])

  unfoldable pub handle_row : RunState World → (graph_id : String) → NodeRow → Handled World
  unfolding await_approval task_approval_current run_task
  handle_row s graph_id row = elim (row.node.kind == NodeKind.approval) [
    | true ↦ await_approval s graph_id row "approval_node" "approval"
    | false ↦ elim row.node.approval_required [
      | false ↦ run_task s graph_id row
      | true ↦
          let (x, current) : World × Bool =
            task_approval_current services s.world graph_id row.node in
          elim current [
            | true ↦ run_task (in_world s x) graph_id row
            | false ↦
                await_approval (in_world s x) graph_id row "approval_required" "approval_required"
          ]
    ]
  ]

  -- the body of `for node_id in ready`
  unfoldable pub handle_node : RunState World → (graph_id node_id : String) → Handled World
  unfolding find_node handle_row
  handle_node s graph_id node_id = elim (find_node node_id s.work.tables.nodes) [
    | none ↦ breaks (no_such_id node_id)
    | some row ↦ handle_row s graph_id row
  ]
