-- ===== src/Execution/Refresh.antt =====
-- The nodes that a run looks at before each pass: `refresh_readiness` of shiroe/work/store.py with its
-- approvals, and `_unblock_task_nodes`, `_task_approval_current` and `_ensure_approval_request` of
-- shiroe/execution/supervisor.py.
use shiroe.Prelude.{String, Bool, true, false, none, some, List, [], ◌∷◌, ◌==◌, string_eq}
use shiroe.Prelude.Json.{Json, obj, end, get_field}
use shiroe.Policy.Approvals.{ApprovalStatus, status_eq}
use shiroe.Work.Schema.{NodeKind, node_kind_eq, NodeStatus, node_status_eq, WorkNode}
use shiroe.Work.Store.{
  no_such_id, Outcome, did, raises, find_node, set_node_status, emit_node_status,
}
use shiroe.Execution.Services.{Services}
use shiroe.Execution.Tried.{RunState, at_work, in_world}
use shiroe.Execution.Attempts.{as_is}

-- `node.metadata.get("scope", {})`
unfoldable pub scope_at : WorkNode → Json
unfolding get_field
scope_at node = elim (get_field "scope" node.metadata) [ none ↦ obj end | some scope ↦ scope ]

-- `_APPROVAL_TO_NODE_STATUS`
unfoldable pub node_status_for : ApprovalStatus → NodeStatus
node_status_for ApprovalStatus.approved = NodeStatus.completed
node_status_for ApprovalStatus.pending = NodeStatus.pending
node_status_for ApprovalStatus.deferred = NodeStatus.pending
node_status_for ApprovalStatus.stale = NodeStatus.pending
node_status_for ApprovalStatus.rejected = NodeStatus.failed
node_status_for ApprovalStatus.revise = NodeStatus.blocked

module _ {World : Type 0} where
  -- `_unblock_task_nodes`, over the nodes of the graph
  unfoldable pub unblock : RunState World → List WorkNode → Outcome (RunState World)
  unfolding find_node set_node_status
  unblock s [] = did s
  unblock s (n ∷ nodes) = elim (n.kind == NodeKind.approval) [
    | true ↦ unblock s nodes
    | false ↦ elim (find_node n.id s.work.tables.nodes) [
      | none ↦ raises (no_such_id n.id)
      | some row ↦ elim (row.status == NodeStatus.blocked) [
        | true ↦ elim (set_node_status as_is s.work n.id NodeStatus.pending row.state_version) [
          | raises f ↦ raises f
          | did w ↦ unblock (at_work s w) nodes
        ]
        | false ↦ unblock s nodes
      ]
    ]
  ]

module _ {World : Type 0} (services : Services World) where
  -- the loop of `refresh_readiness`
  unfoldable pub refresh :
      RunState World → (graph_id : String) → List WorkNode → Outcome (RunState World)
  unfolding scope_at node_status_for find_node emit_node_status
  refresh s graph_id [] = did s
  refresh s graph_id (n ∷ nodes) = elim (n.kind == NodeKind.approval) [
    | false ↦ refresh s graph_id nodes
    | true ↦ elim (services.latest_approval s.world graph_id n.id) [
      | none ↦ refresh s graph_id nodes
      | some approval_id ↦
          let (x, status) : World × ApprovalStatus =
            services.assert_current s.world approval_id (scope_at n) in
          let next = node_status_for status in
          elim (find_node n.id s.work.tables.nodes) [
            | none ↦ raises (no_such_id n.id)
            | some row ↦ elim (next == row.status) [
              | true ↦ refresh (in_world s x) graph_id nodes
              | false ↦
                  refresh (record s { work = emit_node_status as_is s.work n.id next; world = x })
                    graph_id nodes
            ]
          ]
    ]
  ]

  -- `_task_approval_current`
  unfoldable pub task_approval_current : World → (graph_id : String) → WorkNode → World × Bool
  unfolding scope_at
  task_approval_current x graph_id node = elim (services.latest_approval x graph_id node.id) [
    | none ↦ (x, false)
    | some approval_id ↦
        let (y, status) : World × ApprovalStatus =
          services.assert_current x approval_id (scope_at node) in
        (y, status == ApprovalStatus.approved)
  ]

  -- `_ensure_approval_request`
  unfoldable pub ensure_approval_request :
      World → (graph_id : String) → WorkNode → (action_kind : String) → World × String
  ensure_approval_request x graph_id node action_kind =
      elim (services.latest_approval x graph_id node.id) [
        | some approval_id ↦ (x, approval_id)
        | none ↦ services.request x graph_id node action_kind
      ]
