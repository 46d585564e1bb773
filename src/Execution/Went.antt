-- ===== src/Execution/Went.antt =====
-- A task that lets the run go on is completed.
use shiroe.Prelude.{
  ℕ, String, List, [], ◌≡◌, refl, Bool-cases, Option-cases, ◌⊎◌, inl, inr, ◌==◌, string_eq,
}
use shiroe.Prelude.Lists.{List-cases}
use shiroe.Work.Schema.{node_kind_eq, GraphStatus, NodeStatus, node_status_eq}
use shiroe.Work.Tables.{NodeRow}
use shiroe.Work.Store.{
  WorkState, WorkFault, Outcome, did, raises, find_node, set_graph_status, set_node_status,
}
use shiroe.Execution.Budget.{would_exceed, spend_of}
use shiroe.Execution.Services.{Services}
use shiroe.Execution.Attempts.{as_is, attempt_count}
use shiroe.Execution.Tried.{RunState, Stop, Tried, done, returns, caught, uncaught, at_work}
use shiroe.Execution.Attempt.{attempts}
use shiroe.Execution.Handling.{
  Handled, went_on, stops, breaks, projection_at, attempts_left, stop_at, pause_at, settle,
  finish_plain, run_capability, run_task,
}
use shiroe.Execution.Shrinks.{Shrinks}
use shiroe.Execution.Keeps.{IsCompleted, set_node_status-Keeps, set_node_status-IsCompleted}
use shiroe.Execution.Bounded.{Kept, attempts-Kept}

pub Outcome-cases {ℓ} :
    {T : Type ℓ} (o : Outcome T) → ((f : WorkFault) × (o ≡ raises f)) ⊎ ((t : T) × (o ≡ did t))
Outcome-cases (did t) = inr (t, refl)
Outcome-cases (raises f) = inl (f, refl)

module _ {World : Type 0} where
  -- the run goes on only after it has completed the node
  abbrev pub Went : String → WorkState → Handled World → Type 0
  Went id s (went_on t) = Shrinks s.tables.nodes t.work.tables.nodes × IsCompleted id t.work
  Went id s (stops t stop) = Unit
  Went id s (breaks f) = Unit

  pub stop_at_any :
      (s : RunState World) (graph_id id : String) (v : ℕ) (to : NodeStatus) (stop : Stop)
      → (P : Handled World → Type 0) → ((f : WorkFault) → P (breaks f))
      → ((t : RunState World) → P (stops t stop))
      → P (stop_at s graph_id id v to stop)
  unfolding stop_at
  stop_at_any s graph_id id v to stop P b c =
      elim (Outcome-cases (set_node_status as_is s.work id to v)) [
        | inl (f, e) ↦ rw (e, stop_at) (b f)
        | inr (w, e) ↦ elim (Outcome-cases (set_graph_status as_is w graph_id stop.status)) [
          | inl (f, d) ↦ rw (e, stop_at) (rw (d, stop_at) (b f))
          | inr (x, d) ↦ rw (e, stop_at) (rw (d, stop_at) (c (at_work s x)))
        ]
      ]

  pause_at-Went :
      (k : String) (w : WorkState) (s : RunState World) (graph_id id : String) (v : ℕ)
      (reason : String) (pending : List String)
      → Went k w (pause_at s graph_id id v reason pending)
  unfolding pause_at
  pause_at-Went k w s graph_id id v reason pending =
      stop_at_any s graph_id id v NodeStatus.blocked _ (Went k w) (λ f. tt) (λ t. tt)

  settle-Went :
      (n : ℕ) (id : String) (s : WorkState) (graph_id : String) (r : Tried World)
      → Kept n id s r
      → Went id s (settle graph_id id r)
  unfolding settle
  settle-Went n id s graph_id (done t) ((a, h), c) = (h, c)
  settle-Went n id s graph_id (returns t stop) h = tt
  settle-Went n id s graph_id (uncaught f) h = tt
  settle-Went n id s graph_id (caught t message) h =
      elim (Option-cases (find_node id t.work.tables.nodes)) [
        | inl e ↦ rw (e, settle) tt
        | inr (row, e) ↦ elim (Bool-cases (row.status == NodeStatus.failed)) [
          | inr b ↦
              rw (e, settle)
                (rw b (
                  stop_at_any t graph_id id row.state_version NodeStatus.failed _ (Went id s)
                    (λ f. tt) (λ u. tt)))
          | inl b ↦
              elim (Outcome-cases (set_graph_status as_is t.work graph_id GraphStatus.failed)) [
                | inl (f, d) ↦ rw (e, settle) (rw b (rw d tt))
                | inr (w, d) ↦ rw (e, settle) (rw b (rw d tt))
              ]
        ]
      ]

  finish_plain-Went :
      (s : RunState World) (graph_id : String) (row : NodeRow)
      → Went row.node.id s.work (finish_plain s graph_id row)
  unfolding finish_plain
  finish_plain-Went s graph_id row = elim (Bool-cases row.node.independent_review) [
    | inl b ↦
        rw (b, finish_plain)
          (pause_at-Went row.node.id s.work s graph_id row.node.id row.state_version _ [])
    | inr b ↦
        elim (Outcome-cases
          (set_node_status as_is s.work row.node.id NodeStatus.completed row.state_version)) [
            | inl (f, e) ↦ rw (b, finish_plain) (rw (e, finish_plain) tt)
            | inr (w, e) ↦
                rw (b, finish_plain)
                  (rw (e, finish_plain)
                    (
                      (set_node_status-Keeps s.work w row.node.id NodeStatus.completed
                          row.state_version refl e).1,
                      set_node_status-IsCompleted s.work w row.node.id row.state_version e,
                    ))
          ]
  ]

  module _ (services : Services World) where
    pub run_task-Went :
        (s : RunState World) (graph_id : String) (row : NodeRow)
        → Went row.node.id s.work (run_task services s graph_id row)
    unfolding run_task run_capability
    run_task-Went s graph_id row = elim (List-cases row.node.requires) [
      | inl e ↦ rw (e, run_task) (finish_plain-Went s graph_id row)
      | inr (id, more, e) ↦
          elim (Option-cases (would_exceed s.budget (spend_of (projection_at row.node)))) [
            | inr (axis, f) ↦
                rw (e, run_task)
                  (rw (f, run_capability)
                    (pause_at-Went row.node.id s.work s graph_id row.node.id row.state_version
                      "budget" []))
            | inl f ↦
                let left =
                  attempts_left row.node.retry.max_attempts
                    (attempt_count row.node.id s.work.tables.attempts) in
                rw (e, run_task)
                  (rw (f, run_capability)
                    (settle-Went left row.node.id s.work graph_id
                      (attempts services left s graph_id row.node id row.state_version "None")
                      (attempts-Kept services left s graph_id row.node id row.state_version
                        "None")))
          ]
    ]
