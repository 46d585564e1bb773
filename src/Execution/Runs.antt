-- ===== src/Execution/Runs.antt =====
-- A whole run, from `_unblock_task_nodes` to its summary.
use shiroe.Prelude.{
  suc, String, Bool, none, some, List, [], ◌∷◌, ◌≡◌, refl, sym, subst, Bool-cases, Option-cases,
  ◌⊎◌, inl, inr, arith, ◌==◌, string_eq,
}
use shiroe.Work.Schema.{NodeKind, node_kind_eq, GraphStatus, NodeStatus, node_status_eq, WorkNode}
use shiroe.Work.Tables.{NodeRow, same_node, change_where, step_row, apply_step, apply_work}
use shiroe.Work.Store.{
  WorkState, WorkFault, did, find_node, get_graph, emit_work, emit_node_status, set_graph_status,
  set_node_status,
}
use shiroe.Work.Store.RoundTrip.{IsApart}
use shiroe.Execution.Services.{Services}
use shiroe.Execution.Attempts.{as_is}
use shiroe.Execution.Tried.{RunState, at_work}
use shiroe.Execution.Refresh.{unblock}
use shiroe.Execution.Supervisor.{RunSummary, summary, broke, waiting, run}
use shiroe.Execution.Keeps.{set_node_status-did, set_graph_status-Keeps}
use shiroe.Execution.Rows.{UniqueIds, UniqueIds-Shrinks}
use shiroe.Execution.Went.{Outcome-cases}
use shiroe.Execution.Terminates.{run_loop_ends}

IsApart-change_where :
    (a : NodeRow) (test : NodeRow → Bool) (to : NodeStatus) (rows : List NodeRow)
    → IsApart same_node a rows
    → IsApart same_node a (change_where test (step_row (some to) none) rows)
unfolding change_where
IsApart-change_where a test to [] h = tt
IsApart-change_where a test to (x ∷ rows) (h, k) = elim (Bool-cases (test x)) [
  | inl t ↦ rw t (h, IsApart-change_where a test to rows k)
  | inr t ↦ rw t (h, IsApart-change_where a test to rows k)
]

UniqueIds-change_where :
    (test : NodeRow → Bool) (to : NodeStatus) (rows : List NodeRow)
    → UniqueIds rows
    → UniqueIds (change_where test (step_row (some to) none) rows)
unfolding change_where
UniqueIds-change_where test to [] h = tt
UniqueIds-change_where test to (x ∷ rows) (h, k) = elim (Bool-cases (test x)) [
  | inl t ↦ rw t (IsApart-change_where x test to rows h, UniqueIds-change_where test to rows k)
  | inr t ↦ rw t (IsApart-change_where x test to rows h, UniqueIds-change_where test to rows k)
]

UniqueIds-emit_node_status :
    (s : WorkState) (id : String) (to : NodeStatus)
    → UniqueIds s.tables.nodes
    → UniqueIds (emit_node_status as_is s id to).tables.nodes
unfolding emit_node_status emit_work apply_work apply_step
UniqueIds-emit_node_status s id to u =
    UniqueIds-change_where (λ n. n.node.id == id) to s.tables.nodes u

module _ {World : Type 0} where
  UniqueIds-unblock :
      (s t : RunState World) (nodes : List WorkNode)
      → UniqueIds s.work.tables.nodes
      → unblock s nodes ≡ did t
      → UniqueIds t.work.tables.nodes
  unfolding unblock
  UniqueIds-unblock s t [] u h = let p : s ≡ t = ground arith in rw (sym p) u
  UniqueIds-unblock s t (n ∷ nodes) u h = elim (Bool-cases (n.kind == NodeKind.approval)) [
    | inl k ↦ UniqueIds-unblock s t nodes u (rw (k, unblock) at h)
    | inr k ↦ elim (Option-cases (find_node n.id s.work.tables.nodes)) [
      | inl f ↦ ground (arith, k, f)
      | inr (row, f) ↦ elim (Bool-cases (row.status == NodeStatus.blocked)) [
        | inr b ↦
            UniqueIds-unblock s t nodes u (rw b at (rw (f, unblock) at (rw (k, unblock) at h)))
        | inl b ↦
            elim (Outcome-cases
              (set_node_status as_is s.work n.id NodeStatus.pending row.state_version)) [
                | inl (g, e) ↦ ground (arith, k, f, b, e)
                | inr (w, e) ↦
                    let q =
                      set_node_status-did s.work w n.id NodeStatus.pending row.state_version e in
                    let u' : UniqueIds w.tables.nodes =
                      subst (λ x. UniqueIds x.tables.nodes) (sym q)
                        (UniqueIds-emit_node_status s.work n.id NodeStatus.pending u) in
                    UniqueIds-unblock (at_work s w) t nodes u'
                      (rw (e, unblock) at (rw b at (rw (f, unblock) at (rw (k, unblock) at h))))
              ]
      ]
    ]
  ]

  -- Where each node id is that of one row, every run ends: with a summary, or with an error that nothing
  -- catches. The fuel that `run` takes, a pass for each pending task and one more, is enough, whatever the
  -- services answer.
  pub run_ends :
      (services : Services World) (s : RunState World) (graph_id : String)
      → UniqueIds s.work.tables.nodes
      → ((t : RunState World) × (result : RunSummary) × (run services s graph_id
            ≡ summary t result))
        ⊎ ((f : WorkFault) × (run services s graph_id ≡ broke f))
  unfolding run
  run_ends services s graph_id u = elim (Option-cases (get_graph s.work graph_id)) [
    | inl e ↦ rw (e, run) (inr (_, refl))
    | inr (graph, e) ↦ elim (Outcome-cases (unblock s graph.nodes)) [
      | inl (f, d) ↦ rw (e, run) (rw (d, run) (inr (f, refl)))
      | inr (t, d) ↦
          elim (Outcome-cases (set_graph_status as_is t.work graph_id GraphStatus.running)) [
            | inl (f, g) ↦ rw (e, run) (rw (d, run) (rw (g, run) (inr (f, refl))))
            | inr (w, g) ↦
                let u' = UniqueIds-unblock s t graph.nodes u d in
                let sh = (set_graph_status-Keeps t.work w graph_id GraphStatus.running g).1 in
                rw (e, run)
                  (rw (d, run)
                    (rw (g, run)
                      (run_loop_ends services (suc (waiting w.tables.nodes)) (at_work t w) graph_id
                        [] (UniqueIds-Shrinks t.work.tables.nodes w.tables.nodes sh u')
                        (omega arith))))
          ]
    ]
  ]
