-- ===== src/Execution/Limits.antt =====
-- The attempts at a node over the runs of its graph.
use shiroe.Prelude.{
  ℕ, ◌+◌, ◌≤◌, String, false, [], ◌≡◌, refl, Bool-cases, Option-cases, ◌⊎◌, inl, inr, arith, ◌==◌,
  string_eq, nat_eq, ltb, if◌then◌else◌,
}
use shiroe.Work.Schema.{GraphStatus, NodeStatus, node_status_eq}
use shiroe.Work.Tables.{NodeRow}
use shiroe.Work.Store.{WorkState, find_node, set_graph_status, set_node_status}
use shiroe.Execution.Budget.{would_exceed, spend_of}
use shiroe.Execution.Services.{Services}
use shiroe.Execution.Attempts.{as_is, attempt_count}
use shiroe.Execution.Tried.{RunState, Stop, Tried, done, returns, caught, uncaught}
use shiroe.Execution.Attempt.{attempts}
use shiroe.Execution.Handling.{
  Handled, went_on, stops, breaks, projection_at, attempts_left, stop_at, pause_at, settle,
  run_capability,
}
use shiroe.Execution.Keeps.{
  Keeps, Keeps-refl, Keeps-trans, set_node_status-Keeps, set_graph_status-Keeps,
}
use shiroe.Execution.Bounded.{Kept, attempts-Kept}
use shiroe.Execution.Went.{Outcome-cases}

-- the attempts that a node may have
abbrev pub limit : ℕ → ℕ
limit max_attempts = if ltb max_attempts 1 then 1 else max_attempts

attempts_left-limit : (m c d : ℕ) → d ≤ attempts_left m c + c → (d ≤ c) ⊎ (d ≤ limit m)
unfolding attempts_left
attempts_left-limit m c d h = ground arith

module _ {World : Type 0} where
  -- the state that the handling of a node leaves, where it leaves one
  abbrev pub Leaves : (RunState World → Type 0) → Handled World → Type 0
  Leaves P (went_on t) = P t
  Leaves P (stops t stop) = P t
  Leaves P (breaks f) = Unit

  Leaves-map :
      (P Q : RunState World → Type 0) (h : Handled World)
      → ((t : RunState World) → P t → Q t)
      → Leaves P h
      → Leaves Q h
  Leaves-map P Q (went_on t) f p = f t p
  Leaves-map P Q (stops t stop) f p = f t p
  Leaves-map P Q (breaks g) f p = tt

  stop_at-Leaves :
      (n : ℕ) (w : WorkState) (s : RunState World) (graph_id id : String) (v : ℕ) (to : NodeStatus)
      (stop : Stop)
      → (to == NodeStatus.pending) ≡ false
      → Keeps n w s.work
      → Leaves (λ t. Keeps (n + (0 + 0)) w t.work) (stop_at s graph_id id v to stop)
  unfolding stop_at
  stop_at-Leaves n w s graph_id id v to stop ne h =
      elim (Outcome-cases (set_node_status as_is s.work id to v)) [
        | inl (f, e) ↦ rw (e, stop_at) tt
        | inr (x, e) ↦ elim (Outcome-cases (set_graph_status as_is x graph_id stop.status)) [
          | inl (f, d) ↦ rw (e, stop_at) (rw (d, stop_at) tt)
          | inr (y, d) ↦
              rw (e, stop_at)
                (rw (d, stop_at)
                  (Keeps-trans n (0 + 0) w s.work y h (
                    Keeps-trans 0 0 s.work x y (set_node_status-Keeps s.work x id to v ne e)
                      (set_graph_status-Keeps x y graph_id stop.status d))))
        ]
      ]

  -- the attempts of a node are at most `n` more
  abbrev Within : ℕ → String → WorkState → Handled World → Type 0
  Within n id s h =
      Leaves (λ t. attempt_count id t.work.tables.attempts ≤ n + attempt_count id s.tables.attempts)
        h

  stop_at-Within :
      (n : ℕ) (k : String) (w : WorkState) (s : RunState World) (graph_id id : String) (v : ℕ)
      (to : NodeStatus) (stop : Stop)
      → (to == NodeStatus.pending) ≡ false
      → Keeps n w s.work
      → Within n k w (stop_at s graph_id id v to stop)
  stop_at-Within n k w s graph_id id v to stop ne h =
      Leaves-map _ _ (stop_at s graph_id id v to stop) (λ t p. let q = p.0 k in omega arith)
        (stop_at-Leaves n w s graph_id id v to stop ne h)

  settle-Within :
      (n : ℕ) (id : String) (s : WorkState) (graph_id : String) (r : Tried World)
      → Kept n id s r
      → Within n id s (settle graph_id id r)
  unfolding settle
  settle-Within n id s graph_id (done t) ((a, h), c) = a id
  settle-Within n id s graph_id (returns t stop) h = h.0 id
  settle-Within n id s graph_id (uncaught f) h = tt
  settle-Within n id s graph_id (caught t message) h =
      elim (Option-cases (find_node id t.work.tables.nodes)) [
        | inl e ↦ rw (e, settle) tt
        | inr (row, e) ↦ elim (Bool-cases (row.status == NodeStatus.failed)) [
          | inr b ↦
              rw (e, settle)
                (rw b (
                  stop_at-Within n id s t graph_id id row.state_version NodeStatus.failed _ refl h))
          | inl b ↦
              elim (Outcome-cases (set_graph_status as_is t.work graph_id GraphStatus.failed)) [
                | inl (f, d) ↦ rw (e, settle) (rw b (rw d tt))
                | inr (w, d) ↦
                    let k =
                      Keeps-trans n 0 s t.work w h
                        (set_graph_status-Keeps t.work w graph_id GraphStatus.failed d) in
                    rw (e, settle) (rw b (rw d (let q = k.0 id in omega arith)))
              ]
        ]
      ]

  -- A task with a capability is handled so that, where the run goes on or returns after it, the attempts at the
  -- node, those of earlier runs counted too, are at most `max_attempts`, or 1 where that is 0, or no more than they
  -- were before. An error that nothing catches leaves no state here.
  pub attempt_count-run_capability :
      (services : Services World) (s : RunState World) (graph_id : String) (row : NodeRow)
      (capability_id : String)
      → Leaves
          (λ t.
            (attempt_count row.node.id t.work.tables.attempts
              ≤ attempt_count row.node.id s.work.tables.attempts)
            ⊎ (attempt_count row.node.id t.work.tables.attempts
                ≤ limit row.node.retry.max_attempts))
          (run_capability services s graph_id row capability_id)
  unfolding run_capability pause_at
  attempt_count-run_capability services s graph_id row capability_id =
      elim (Option-cases (would_exceed s.budget (spend_of (projection_at row.node)))) [
        | inr (axis, e) ↦
            rw (e, run_capability)
              (Leaves-map
                (λ t.
                  attempt_count row.node.id t.work.tables.attempts
                  ≤ 0 + attempt_count row.node.id s.work.tables.attempts)
                _ (pause_at s graph_id row.node.id row.state_version "budget" [])
                (λ t p. inl (omega arith))
                (stop_at-Within 0 row.node.id s.work s graph_id row.node.id row.state_version
                  NodeStatus.blocked
                  (record {
                    status = GraphStatus.paused;
                    reason = "budget";
                    pending_approvals = [];
                  })
                  refl (Keeps-refl s.work)))
        | inl e ↦
            let c = attempt_count row.node.id s.work.tables.attempts in
            let left = attempts_left row.node.retry.max_attempts c in
            let r =
              attempts services left s graph_id row.node capability_id row.state_version "None" in
            rw (e, run_capability)
              (Leaves-map _ _ (settle graph_id row.node.id r)
                (λ t p.
                  attempts_left-limit row.node.retry.max_attempts c
                    (attempt_count row.node.id t.work.tables.attempts) p)
                (settle-Within left row.node.id s.work graph_id r (
                  attempts-Kept services left s graph_id row.node capability_id row.state_version
                    "None")))
      ]
