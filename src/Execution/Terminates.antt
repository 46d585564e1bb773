-- ===== src/Execution/Terminates.antt =====
-- A run ends: each pass that does not return completes a task that waited.
use mathlib.Core.List.{Memᴰ}
use shiroe.Prelude.{
  ℕ, zero, suc, ◌<◌, String, some, List, ◌∷◌, ◌≡◌, refl, ◌∙◌, sym, ap, subst, Option-cases, ⊎_elim,
  ◌⊎◌, inl, inr, arith, string_eq, if◌then◌else◌,
}
use shiroe.Prelude.Lists.{List-cases}
use shiroe.Work.Schema.{node_kind_eq, GraphStatus, NodeStatus, node_status_eq, WorkNode}
use shiroe.Work.Readiness.{status_of, store_ready_node_ids}
use shiroe.Work.Readiness.Ready.{store_ready_node_ids-IsReady}
use shiroe.Work.Tables.{NodeRow}
use shiroe.Work.Store.{
  WorkState, WorkFault, find_node, get_graph, ready_ids, statuses_of, set_graph_status,
}
use shiroe.Execution.Services.{Services}
use shiroe.Execution.Attempts.{as_is}
use shiroe.Execution.Tried.{RunState, at_work}
use shiroe.Execution.Refresh.{refresh}
use shiroe.Execution.Supervisor.{
  RunSummary, Ran, summary, broke, Passed, passed, ends, breaks_off, waiting, statuses_at,
  all_finished, handle_all, conclude, run_loop,
}
use shiroe.Execution.Shrinks.{waiting-Shrinks}
use shiroe.Execution.Rows.{
  UniqueIds, UniqueIds-Shrinks, find_node-mem, status_of-mem, get_graph-mem,
}
use shiroe.Execution.Approvals.{HaveRows, refresh-Shrinks}
use shiroe.Execution.Went.{Outcome-cases}
use shiroe.Execution.Passes.{handle_all_drops}

-- the first of the ready nodes is pending
ready_pending :
    (s : WorkState) (graph_id id : String) (ready : List String)
    → UniqueIds s.tables.nodes
    → ready_ids s graph_id ≡ some (id ∷ ready)
    → (row : NodeRow) → find_node id s.tables.nodes ≡ some row
    → row.status ≡ NodeStatus.pending
unfolding ready_ids
ready_pending s graph_id id ready u h row f = elim (Option-cases (get_graph s graph_id)) [
  | inl e ↦ ground (arith, e)
  | inr (graph, e) ↦
      let statuses = statuses_of graph_id s.tables.nodes in
      let h' : store_ready_node_ids graph statuses ≡ some (id ∷ ready) = rw (e, ready_ids) at h in
      let (n, m, i, pend, d) =
        store_ready_node_ids-IsReady graph statuses (id ∷ ready) id h' (Memᴰ.head refl) in
      let (r, k, p, g) = get_graph-mem s graph_id graph n e m in
      let q : r.node.id ≡ id = ap (λ z. z.id) p ∙ i in
      let same : some r ≡ some row =
        sym
          (subst (λ x. find_node x s.tables.nodes ≡ some r) q (find_node-mem s.tables.nodes r u k))
        ∙ f in
      let st : status_of statuses id ≡ some r.status =
        subst (λ x. status_of statuses x ≡ some r.status) q
          (status_of-mem graph_id s.tables.nodes r u k g) in
      ⊎_elim (λ x. cc) (λ x. cc) pend
]

abbrev Ended : {World : Type 0} → Ran World → Type 0
Ended {World} r =
    ((t : RunState World) × (result : RunSummary) × (r ≡ summary t result))
    ⊎ ((f : WorkFault) × (r ≡ broke f))

module _ {World : Type 0} where
  conclude-Ended :
      (s : RunState World) (graph_id : String) (nodes : List WorkNode) (completed : List String)
      → Ended (conclude s graph_id nodes completed)
  unfolding conclude
  conclude-Ended s graph_id nodes completed = elim (Outcome-cases (statuses_at s.work nodes)) [
    | inl (f, e) ↦ rw (e, conclude) (inr (f, refl))
    | inr (statuses, e) ↦
        elim (Outcome-cases (
          set_graph_status as_is s.work graph_id
            (if all_finished statuses then GraphStatus.completed else GraphStatus.failed))) [
              | inl (f, d) ↦ rw (e, conclude) (rw (d, conclude) (inr (f, refl)))
              | inr (w, d) ↦ rw (e, conclude) (rw (d, conclude) (inl (at_work s w, _, refl)))
            ]
  ]

  Passed-cases :
      (p : Passed World)
      → ((t : RunState World) × (ids : List String) × (p ≡ passed t ids))
        ⊎ (((t : RunState World) × (r : RunSummary) × (p ≡ ends t r))
            ⊎ ((f : WorkFault) × (p ≡ breaks_off f)))
  Passed-cases (passed t ids) = inl (t, ids, refl)
  Passed-cases (ends t r) = inr (inl (t, r, refl))
  Passed-cases (breaks_off f) = inr (inr (f, refl))

  module _ (services : Services World) where
    -- From rows whose ids are each of one row, the loop ends if the fuel is more than the tasks that are
    -- pending: with a summary, or with an error that nothing catches.
    pub run_loop_ends :
        (fuel : ℕ) (s : RunState World) (graph_id : String) (completed : List String)
        → UniqueIds s.work.tables.nodes
        → waiting s.work.tables.nodes < fuel
        → ((t : RunState World) × (result : RunSummary) × (run_loop services fuel s graph_id
                completed
              ≡ summary t result))
          ⊎ ((f : WorkFault) × (run_loop services fuel s graph_id completed ≡ broke f))
    unfolding run_loop
    run_loop_ends zero s graph_id completed u l = absurd (omega arith)
    run_loop_ends (suc fuel) s graph_id completed u l =
        elim (Option-cases (get_graph s.work graph_id)) [
          | inl e ↦ rw (e, run_loop) (inr (_, refl))
          | inr (graph, e) ↦
              let rows : HaveRows graph.nodes s.work.tables.nodes =
                λ n m. let (r, k, p, g) = get_graph-mem s.work graph_id graph n e m in (r, k, p) in
              elim (Outcome-cases (refresh services s graph_id graph.nodes)) [
                | inl (f, d) ↦ rw (e, run_loop) (rw (d, run_loop) (inr (f, refl)))
                | inr (t, d) ↦
                    let sh = refresh-Shrinks services s t graph_id graph.nodes u rows d in
                    let u' = UniqueIds-Shrinks s.work.tables.nodes t.work.tables.nodes sh u in
                    let le = waiting-Shrinks s.work.tables.nodes t.work.tables.nodes sh in
                    elim (Option-cases (ready_ids t.work graph_id)) [
                      | inl r ↦
                          rw (e, run_loop) (rw (d, run_loop) (rw (r, run_loop) (inr (_, refl))))
                      | inr (ready, r) ↦
                          rw (e, run_loop)
                            (rw (d, run_loop)
                              (elim (List-cases ready) [
                                | inl z ↦
                                    rw (r ∙ ap some z, run_loop)
                                      (conclude-Ended t graph_id graph.nodes completed)
                                | inr (id, more, z) ↦
                                    let r' = r ∙ ap some z in
                                    rw (r', run_loop)
                                      (elim (Passed-cases
                                        (handle_all services t graph_id completed (id ∷ more))) [
                                          | inr (inl (v, result, p)) ↦
                                              rw (p, run_loop) (inl (v, result, refl))
                                          | inr (inr (f, p)) ↦ rw (p, run_loop) (inr (f, refl))
                                          | inl (v, ids, p) ↦
                                              let (sh', less) =
                                                handle_all_drops services t v graph_id id completed
                                                  more ids p
                                                  (ready_pending t.work graph_id id more u' r') in
                                              rw (p, run_loop)
                                                (run_loop_ends fuel v graph_id ids
                                                  (UniqueIds-Shrinks t.work.tables.nodes
                                                    v.work.tables.nodes sh' u')
                                                  (omega arith))
                                        ])
                              ]))
                    ]
              ]
        ]
