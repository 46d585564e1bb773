-- ===== src/Work/Store.antt =====
-- `WorkStore` of shiroe/work/store.py over one process. `sealed` is what the log makes of the texts of an
-- event when it is appended; the log takes every event here. A row holds what passed the checks of the
-- schema, so that reading it back does not repeat them.
pub mod Rows
pub mod Versions
pub mod Replay
pub mod RoundTrip
use shiroe.Prelude.{
  ℕ, String, Bool, true, false, Option, none, some, List, [], ◌∷◌, ◌++◌, map, ◌==◌, nat_eq,
  string_eq, if◌then◌else◌,
}
use shiroe.Prelude.Sort.{sort_by}
use shiroe.Prelude.Json.{Fields, end}
use shiroe.Work.Schema.{GraphStatus, NodeStatus, WorkNode, WorkEdge, WorkGraph}
use shiroe.Work.Compiler.{node_leb, edge_leb}
use shiroe.Work.Readiness.{Statuses, store_ready_node_ids}
use shiroe.Work.Tables.{
  GraphRow, NodeRow, Tables, WorkEvent, run_created, run_status, step, apply_work, apply_checked,
}

-- the tables, and the work events of the log
pub record WorkState : Type 0 where
  pub tables : Tables
  pub log : List WorkEvent

pub data WorkFault : Type 0 where
  no_such_id concurrent_update : String → WorkFault
  unsupported_status : GraphStatus → WorkFault

-- an operation that raises such a fault leaves the state as it was
pub data Outcome {ℓ} (T : Type ℓ) : Type ℓ where
  did : T → Outcome T
  raises : WorkFault → Outcome T

unfoldable pub find_graph : String → List GraphRow → Option GraphRow
find_graph id [] = none
find_graph id (g ∷ graphs) = let rest = find_graph id graphs in if g.id == id then some g else rest

unfoldable pub find_node : String → List NodeRow → Option NodeRow
find_node id [] = none
find_node id (n ∷ nodes) = let rest = find_node id nodes in if n.node.id == id then some n else rest

-- `WHERE` with a test
unfoldable pub select {ℓ} : {A : Type ℓ} → (A → Bool) → List A → List A
select test [] = []
select test (x ∷ xs) = let rest = select test xs in if test x then x ∷ rest else rest

-- `get`
unfoldable pub get_graph : WorkState → String → Option WorkGraph
unfolding find_graph select sort_by
get_graph s graph_id = elim (find_graph graph_id s.tables.graphs) [
  | none ↦ none
  | some row ↦ some (record {
    id = row.id;
    objective = row.objective;
    nodes =
        sort_by node_leb
          (map (λ n. n.node) (select (λ n. n.node.graph_id == graph_id) s.tables.nodes));
    edges = sort_by edge_leb (select (λ e. e.graph_id == graph_id) s.tables.edges);
    constraints = row.constraints;
    success_criteria = row.success_criteria;
    status = row.status;
    version = row.version;
    metadata = end;
  })
]

-- `get_node`
unfoldable pub get_node : WorkState → String → Option NodeRow
unfolding find_node
get_node s node_id = find_node node_id s.tables.nodes

-- `_node_statuses`
unfoldable pub statuses_of : String → List NodeRow → Statuses
statuses_of graph_id [] = []
statuses_of graph_id (n ∷ nodes) =
    let rest = statuses_of graph_id nodes in
    if n.node.graph_id == graph_id then (n.node.id, n.status) ∷ rest else rest

-- `ready_node_ids`
unfoldable pub ready_ids : WorkState → String → Option (List String)
unfolding get_graph statuses_of
ready_ids s graph_id = elim (get_graph s graph_id) [
  | none ↦ none
  | some graph ↦ store_ready_node_ids graph (statuses_of graph_id s.tables.nodes)
]

-- `_GRAPH_STATUS_EVENTS`, and the two names of `running`
unfoldable pub run_event : (current next : GraphStatus) → Option String
run_event GraphStatus.paused GraphStatus.running = some "run.resumed"
run_event current GraphStatus.running = some "run.started"
run_event current GraphStatus.paused = some "run.paused"
run_event current GraphStatus.completed = some "run.completed"
run_event current GraphStatus.failed = some "run.failed"
run_event current GraphStatus.cancelled = some "run.cancelled"
run_event current other = none

-- `_NODE_STATUS_EVENTS.get(next_status, "step.started")`
unfoldable pub step_event : NodeStatus → String
step_event NodeStatus.completed = "step.completed"
step_event NodeStatus.failed = "step.failed"
step_event other = "step.started"

module _ (sealed : WorkEvent → WorkEvent) where
  -- `events.append`, `apply_event` and the commit
  unfoldable pub emit_work : WorkState → WorkEvent → WorkState
  unfolding apply_work
  emit_work s event = record {
    tables = apply_work (sealed event) s.tables;
    log = s.log ++ sealed event ∷ [];
  }

  -- the same for an event that inserts rows, and whether it is done: where a foreign key refuses a row,
  -- the event is in the log, and the call raises
  unfoldable pub emit_checked : WorkState → WorkEvent → WorkState × Bool
  unfolding apply_checked
  emit_checked s event =
      let (tables, all) : Tables × Bool = apply_checked (sealed event) s.tables in
      (record { tables = tables; log = s.log ++ sealed event ∷ [] }, all)

  unfoldable pub create : WorkState → WorkGraph → WorkState × Bool
  unfolding emit_checked
  create s graph = emit_checked s (run_created graph)

  unfoldable pub set_graph_status : WorkState → String → GraphStatus → Outcome WorkState
  unfolding find_graph run_event emit_work
  set_graph_status s graph_id next = elim (find_graph graph_id s.tables.graphs) [
    | none ↦ raises (no_such_id graph_id)
    | some row ↦ elim (run_event row.status next) [
      | none ↦ raises (unsupported_status next)
      | some event_type ↦ did (emit_work s (run_status event_type graph_id next))
    ]
  ]

  -- `_emit_node_status`
  unfoldable pub emit_node_status : WorkState → String → NodeStatus → WorkState
  unfolding step_event emit_work
  emit_node_status s node_id next = emit_work s (step (step_event next) node_id (some next) none)

  unfoldable pub set_node_status :
      WorkState → (node_id : String) → NodeStatus → (expected_version : ℕ) → Outcome WorkState
  unfolding find_node emit_node_status
  set_node_status s node_id next expected_version = elim (find_node node_id s.tables.nodes) [
    | none ↦ raises (no_such_id node_id)
    | some row ↦
        if row.state_version == expected_version
        then did (emit_node_status s node_id next)
        else raises (concurrent_update node_id)
  ]

  unfoldable pub record_output :
      WorkState → (node_id : String) → Fields → (expected_version : ℕ) → Outcome WorkState
  unfolding find_node emit_work
  record_output s node_id output expected_version = elim (find_node node_id s.tables.nodes) [
    | none ↦ raises (no_such_id node_id)
    | some row ↦
        if row.state_version == expected_version
        then did (emit_work s (step "step.completed" node_id none (some output)))
        else raises (concurrent_update node_id)
  ]
