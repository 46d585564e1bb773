-- ===== src/Execution/Passes.antt =====
-- What a pass of the supervisor over the ready nodes leaves.
use shiroe.Prelude.{
  ◌<◌, String, Bool, true, false, some, List, [], ◌∷◌, ◌++◌, ◌≡◌, refl, sym, subst, Bool-cases,
  Option-cases, ◌⊎◌, inl, inr, arith, ◌==◌, string_eq,
}
use shiroe.Work.Schema.{NodeKind, node_kind_eq, NodeStatus, node_status_eq}
use shiroe.Work.Tables.{NodeRow}
use shiroe.Work.Store.{WorkState, WorkFault, find_node}
use shiroe.Execution.Services.{Services}
use shiroe.Execution.Tried.{RunState, Stop, in_world}
use shiroe.Execution.Refresh.{task_approval_current, ensure_approval_request}
use shiroe.Execution.Handling.{
  Handled, went_on, stops, breaks, pause_at, run_task, await_approval, handle_row, handle_node,
}
use shiroe.Execution.Supervisor.{passed, is_waiting, waiting, handle_all}
use shiroe.Execution.Shrinks.{Shrinks, Shrinks-refl, Shrinks-trans, waiting-Shrinks, waiting_drops}
use shiroe.Execution.Keeps.{IsCompleted}
use shiroe.Execution.Rows.{find_node-id}
use shiroe.Execution.Went.{Went, stop_at_any, run_task-Went}

waits :
    (row : NodeRow)
    → (row.node.kind == NodeKind.approval) ≡ false
    → row.status ≡ NodeStatus.pending
    → is_waiting row ≡ true
waits row k p = rw k (rw p refl)

waits_not : (row : NodeRow) → row.status ≡ NodeStatus.completed → is_waiting row ≡ false
waits_not row p = elim (Bool-cases (row.node.kind == NodeKind.approval)) [
  | inl k ↦ rw k refl
  | inr k ↦ rw k (rw p refl)
]

module _ {World : Type 0} where
  module _ (services : Services World) where
    -- an approval node never lets the run go on
    abbrev WentTask : NodeRow → WorkState → Handled World → Type 0
    WentTask row s (went_on t) =
        Shrinks s.tables.nodes t.work.tables.nodes
        × IsCompleted row.node.id t.work
        × ((row.node.kind == NodeKind.approval) ≡ false)
    WentTask row s (stops t stop) = Unit
    WentTask row s (breaks f) = Unit

    WentTask-Went :
        (row : NodeRow) (s : WorkState) (h : Handled World)
        → (row.node.kind == NodeKind.approval) ≡ false
        → Went row.node.id s h
        → WentTask row s h
    WentTask-Went row s (went_on t) k (a, b) = (a, b, k)
    WentTask-Went row s (stops t stop) k w = tt
    WentTask-Went row s (breaks f) k w = tt

    await_approval-WentTask :
        (s : RunState World) (w : WorkState) (graph_id : String) (row : NodeRow)
        (action_kind reason : String)
        → WentTask row w (await_approval services s graph_id row action_kind reason)
    unfolding await_approval pause_at
    await_approval-WentTask s w graph_id row action_kind reason =
        let (x, id) = ensure_approval_request services s.world graph_id row.node action_kind in
        stop_at_any (in_world s x) graph_id row.node.id row.state_version NodeStatus.blocked _
          (WentTask row w) (λ f. tt) (λ t. tt)

    after_check :
        (s : RunState World) (graph_id : String) (row : NodeRow) (b : Bool)
        → (row.node.kind == NodeKind.approval) ≡ false
        → WentTask row s.work (elim b [
          | true ↦ run_task services s graph_id row
          | false ↦ await_approval services s graph_id row "approval_required" "approval_required"
        ])
    after_check s graph_id row true k =
        WentTask-Went row s.work _ k (run_task-Went services s graph_id row)
    after_check s graph_id row false k =
        await_approval-WentTask s s.work graph_id row "approval_required" "approval_required"

    handle_row-WentTask :
        (s : RunState World) (graph_id : String) (row : NodeRow)
        → WentTask row s.work (handle_row services s graph_id row)
    unfolding handle_row
    handle_row-WentTask s graph_id row = elim (Bool-cases (row.node.kind == NodeKind.approval)) [
      | inl k ↦
          rw (k, handle_row)
            (await_approval-WentTask s s.work graph_id row "approval_node" "approval")
      | inr k ↦ elim (Bool-cases row.node.approval_required) [
        | inr b ↦
            rw (k, handle_row)
              (rw (b, handle_row)
                (WentTask-Went row s.work _ k (run_task-Went services s graph_id row)))
        | inl b ↦
            let (x, current) : World × Bool =
              task_approval_current services s.world graph_id row.node in
            rw (k, handle_row)
              (rw (b, handle_row) (after_check (in_world s x) graph_id row current k))
      ]
    ]

    handle_node-WentTask :
        (s t : RunState World) (graph_id id : String)
        → handle_node services s graph_id id ≡ went_on t
        → (row : NodeRow) × (find_node id s.work.tables.nodes ≡ some row)
          × WentTask row s.work (went_on t)
    unfolding handle_node
    handle_node-WentTask s t graph_id id h =
        elim (Option-cases (find_node id s.work.tables.nodes)) [
          | inl e ↦ ground (arith, e)
          | inr (row, e) ↦
              let p : handle_row services s graph_id row ≡ went_on t = ground (arith, e) in
              (row, e, subst (WentTask row s.work) p (handle_row-WentTask s graph_id row))
        ]

    Handled-cases :
        (h : Handled World)
        → ((t : RunState World) × (h ≡ went_on t))
          ⊎ (((t : RunState World) × (stop : Stop) × (h ≡ stops t stop))
              ⊎ ((f : WorkFault) × (h ≡ breaks f)))
    Handled-cases (went_on t) = inl (t, refl)
    Handled-cases (stops t stop) = inr (inl (t, stop, refl))
    Handled-cases (breaks f) = inr (inr (f, refl))

    handle_all-Shrinks :
        (s t : RunState World) (graph_id : String) (ids ready ids' : List String)
        → handle_all services s graph_id ids ready ≡ passed t ids'
        → Shrinks s.work.tables.nodes t.work.tables.nodes
    unfolding handle_all
    handle_all-Shrinks s t graph_id ids [] ids' h =
        let p : s ≡ t = ground arith in rw (sym p) (Shrinks-refl s.work.tables.nodes)
    handle_all-Shrinks s t graph_id ids (id ∷ ready) ids' h =
        elim (Handled-cases (handle_node services s graph_id id)) [
          | inr (inl (u, stop, e)) ↦ ground (arith, e)
          | inr (inr (f, e)) ↦ ground (arith, e)
          | inl (u, e) ↦
              let rest =
                handle_all-Shrinks u t graph_id (ids ++ id ∷ []) ready ids'
                  (rw (e, handle_all) at h) in
              let (row, f, w) = handle_node-WentTask s u graph_id id e in
              Shrinks-trans s.work.tables.nodes u.work.tables.nodes t.work.tables.nodes w.0 rest
        ]

    -- a pass that ends without a return has completed its first node
    pub handle_all_drops :
        (s t : RunState World) (graph_id id : String) (ids ready ids' : List String)
        → handle_all services s graph_id ids (id ∷ ready) ≡ passed t ids'
        → ((row : NodeRow)
            → find_node id s.work.tables.nodes ≡ some row
            → row.status ≡ NodeStatus.pending)
        → Shrinks s.work.tables.nodes t.work.tables.nodes
          × (waiting t.work.tables.nodes < waiting s.work.tables.nodes)
    unfolding handle_all
    handle_all_drops s t graph_id id ids ready ids' h pend =
        elim (Handled-cases (handle_node services s graph_id id)) [
          | inr (inl (u, stop, e)) ↦ ground (arith, e)
          | inr (inr (f, e)) ↦ ground (arith, e)
          | inl (u, e) ↦
              let rest =
                handle_all-Shrinks u t graph_id (ids ++ id ∷ []) ready ids'
                  (rw (e, handle_all) at h) in
              let (row, f, (sh, (row', f', c), k)) = handle_node-WentTask s u graph_id id e in
              let i : row.node.id ≡ id = find_node-id s.work.tables.nodes id row f in
              let g : find_node id u.work.tables.nodes ≡ some row' = rw i at f' in
              let less =
                waiting_drops s.work.tables.nodes u.work.tables.nodes id row row' sh f g
                  (waits row k (pend row f)) (waits_not row' c) in
              let le = waiting-Shrinks u.work.tables.nodes t.work.tables.nodes rest in
              (
                Shrinks-trans s.work.tables.nodes u.work.tables.nodes t.work.tables.nodes sh rest,
                omega arith,
              )
        ]
