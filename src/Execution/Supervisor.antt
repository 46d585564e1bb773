-- ===== src/Execution/Supervisor.antt =====
-- `ExecutionSupervisor.run` of shiroe/execution/supervisor.py. An error that nothing catches ends the run;
-- the state that it leaves is not modelled.
use Prim.Native.String.{◌++◌ as str_append}
use shiroe.Prelude.{
  ℕ, zero, suc, String, Bool, true, false, ◌&&◌, not, Option, none, some, List, [], ◌∷◌, ◌++◌, ◌==◌,
  string_eq, contains, if◌then◌else◌,
}
use shiroe.Policy.Approvals.{status_eq}
use shiroe.Work.Schema.{NodeKind, node_kind_eq, GraphStatus, NodeStatus, node_status_eq, WorkNode}
use shiroe.Work.Readiness.{Statuses}
use shiroe.Work.Tables.{NodeRow}
use shiroe.Work.Store.{
  WorkState, WorkFault, no_such_id, Outcome, did, raises, find_node, get_graph, ready_ids,
  set_graph_status,
}
use shiroe.Execution.Budget.{BudgetTracker}
use shiroe.Execution.Services.{Services}
use shiroe.Execution.Results.{list_text}
use shiroe.Execution.Tried.{RunState, Stop, at_work}
use shiroe.Execution.Attempts.{as_is}
use shiroe.Execution.Refresh.{unblock, refresh}
use shiroe.Execution.Handling.{went_on, stops, breaks, handle_node}

pub record RunSummary : Type 0 where
  pub graph_id : String
  pub status : GraphStatus
  pub completed : List String
  pub failed : List String
  pub blocked : List String
  pub reason : Option String
  pub usage : BudgetTracker
  pub pending_approvals : List String

pub data Ran (World : Type 0) : Type 0 where
  summary : RunState World → RunSummary → Ran World
  broke : WorkFault → Ran World
  out_of_fuel : Ran World

-- What comes of the ready nodes of a pass, with the nodes that the run has completed.
pub data Passed (World : Type 0) : Type 0 where
  passed : RunState World → List String → Passed World
  ends : RunState World → RunSummary → Passed World
  breaks_off : WorkFault → Passed World

-- the statuses of the nodes of a graph, of each the row that `get_node` finds
unfoldable pub statuses_at : WorkState → List WorkNode → Outcome Statuses
unfolding find_node
statuses_at s [] = did []
statuses_at s (n ∷ nodes) = elim (find_node n.id s.tables.nodes) [
  | none ↦ raises (no_such_id n.id)
  | some row ↦ elim (statuses_at s nodes) [
    | raises f ↦ raises f
    | did rest ↦ did ((n.id, row.status) ∷ rest)
  ]
]

unfoldable pub all_finished : Statuses → Bool
all_finished [] = true
all_finished ((id, status) ∷ rest) =
    let later = all_finished rest in
    if contains (NodeStatus.completed ∷ NodeStatus.skipped ∷ []) status then later else false

unfoldable pub pending_in : Statuses → List String
pending_in [] = []
pending_in ((id, status) ∷ rest) =
    let later = pending_in rest in if status == NodeStatus.pending then id ∷ later else later

-- `repr` of a tuple of texts without quotes
unfoldable pub tuple_text : List String → String
unfolding list_text
tuple_text [] = "()"
tuple_text (id ∷ []) = str_append "('" (str_append id "',)")
tuple_text (id ∷ ids) = str_append "(" (str_append (list_text (id ∷ ids)) ")")

abbrev pub is_failed : GraphStatus → Bool
is_failed GraphStatus.failed = true
is_failed other = false

-- a task that is pending
abbrev pub is_waiting : NodeRow → Bool
is_waiting row = not (row.node.kind == NodeKind.approval) && (row.status == NodeStatus.pending)

unfoldable pub waiting : List NodeRow → ℕ
waiting [] = 0
waiting (row ∷ rows) = let rest = waiting rows in if is_waiting row then suc rest else rest

-- the summary of a run that stops at a node
unfoldable pub stopped_summary :
    (graph_id : String) → List String → (node_id : String) → BudgetTracker → Stop → RunSummary
stopped_summary graph_id completed node_id usage stop =
    let failing = is_failed stop.status in
    record {
      graph_id = graph_id;
      status = stop.status;
      completed = completed;
      failed = if failing then node_id ∷ [] else [];
      blocked = if failing then [] else node_id ∷ [];
      reason = some stop.reason;
      usage = usage;
      pending_approvals = stop.pending_approvals;
    }

module _ {World : Type 0} where
  -- no node is ready: the graph is completed, or it is stuck
  unfoldable pub conclude :
      RunState World → (graph_id : String) → List WorkNode → List String → Ran World
  unfolding statuses_at all_finished pending_in tuple_text set_graph_status
  conclude s graph_id nodes completed = elim (statuses_at s.work nodes) [
    | raises f ↦ broke f
    | did statuses ↦
        let finished = all_finished statuses in
        let status = if finished then GraphStatus.completed else GraphStatus.failed in
        elim (set_graph_status as_is s.work graph_id status) [
          | raises f ↦ broke f
          | did w ↦ summary (at_work s w) (record {
            graph_id = graph_id;
            status = status;
            completed = completed;
            failed = [];
            blocked = [];
            reason =
                if finished
                then none
                else some
                    (str_append "deadlocked pending nodes: " (tuple_text (pending_in statuses)));
            usage = s.budget;
            pending_approvals = [];
          })
        ]
  ]

module _ {World : Type 0} (services : Services World) where
  -- `for node_id in ready`
  unfoldable pub handle_all :
      RunState World → (graph_id : String) → List String → List String → Passed World
  unfolding handle_node stopped_summary
  handle_all s graph_id completed [] = passed s completed
  handle_all s graph_id completed (node_id ∷ ready) =
      elim (handle_node services s graph_id node_id) [
        | went_on t ↦ handle_all t graph_id (completed ++ node_id ∷ []) ready
        | stops t stop ↦ ends t (stopped_summary graph_id completed node_id t.budget stop)
        | breaks f ↦ breaks_off f
      ]

  -- `while True`
  unfoldable pub run_loop :
      (fuel : ℕ) → RunState World → (graph_id : String) → List String → Ran World
  unfolding get_graph refresh ready_ids handle_all conclude
  run_loop zero s graph_id completed = out_of_fuel
  run_loop (suc fuel) s graph_id completed = elim (get_graph s.work graph_id) [
    | none ↦ broke (no_such_id graph_id)
    | some graph ↦ elim (refresh services s graph_id graph.nodes) [
      | raises f ↦ broke f
      | did t ↦ elim (ready_ids t.work graph_id) [
        | none ↦ broke (no_such_id graph_id)
        | some [] ↦ conclude t graph_id graph.nodes completed
        | some (node_id ∷ ready) ↦ elim (handle_all t graph_id completed (node_id ∷ ready)) [
          | passed u ids ↦ run_loop fuel u graph_id ids
          | ends u result ↦ summary u result
          | breaks_off f ↦ broke f
        ]
      ]
    ]
  ]

  -- the loop with fuel for each waiting node, and for the pass that returns
  unfoldable pub run : RunState World → (graph_id : String) → Ran World
  unfolding get_graph unblock set_graph_status waiting run_loop
  run s graph_id = elim (get_graph s.work graph_id) [
    | none ↦ broke (no_such_id graph_id)
    | some graph ↦ elim (unblock s graph.nodes) [
      | raises f ↦ broke f
      | did t ↦ elim (set_graph_status as_is t.work graph_id GraphStatus.running) [
        | raises f ↦ broke f
        | did w ↦ run_loop (suc (waiting w.tables.nodes)) (at_work t w) graph_id []
      ]
    ]
  ]
