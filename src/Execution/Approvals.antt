-- ===== src/Execution/Approvals.antt =====
-- What the refresh of the approval nodes keeps of the rows.
use mathlib.Core.List.{Memᴰ}
use mathlib.Core.List.Memᴰ
use shiroe.Prelude.{
  String, Bool, true, none, some, List, [], ◌∷◌, ◌≡◌, refl, ◌∙◌, sym, ap, subst, Bool-cases,
  Option-cases, ⊎_elim, inl, inr, arith, ◌==◌, string_eq,
}
use shiroe.Work.Schema.{NodeKind, node_kind_eq, NodeStatus, node_status_eq, WorkNode}
use shiroe.Work.Tables.{NodeRow, step_row, apply_step, apply_work}
use shiroe.Work.Store.{WorkState, did, find_node, emit_work, emit_node_status}
use shiroe.Execution.Services.{Services}
use shiroe.Execution.Attempts.{as_is}
use shiroe.Execution.Tried.{RunState, in_world}
use shiroe.Execution.Refresh.{scope_at, node_status_for, refresh}
use shiroe.Execution.Supervisor.{is_waiting}
use shiroe.Execution.Shrinks.{Shrinks, Shrinks-refl, Shrinks-trans, AllWhere, Shrinks-change_where}
use shiroe.Execution.Rows.{UniqueIds, UniqueIds-Shrinks, AllWhere-approval}

-- every node has a row
abbrev pub HaveRows : List WorkNode → List NodeRow → Type 0
HaveRows nodes rows = (n : WorkNode) → Memᴰ n nodes → (r : NodeRow) × Memᴰ r rows × (r.node ≡ n)

mem-Shrinks :
    (xs ys : List NodeRow) (r : NodeRow)
    → Shrinks xs ys
    → Memᴰ r xs
    → (q : NodeRow) × Memᴰ q ys × (q.node ≡ r.node)
mem-Shrinks [] ys r s m = absurd (Memᴰ.not-nil m)
mem-Shrinks (x ∷ xs) [] r s m = elim s [ ]
mem-Shrinks (x ∷ xs) (y ∷ ys) r (p, q, s) m =
    ⊎_elim (λ e. (y, Memᴰ.head refl, p ∙ ap (λ z. z.node) (sym e)))
      (λ n. let (z, k, i) = mem-Shrinks xs ys r s n in (z, Memᴰ.tail k, i)) (Memᴰ.cases_cons m)

HaveRows-Shrinks :
    (nodes : List WorkNode) (xs ys : List NodeRow)
    → Shrinks xs ys
    → HaveRows nodes xs
    → HaveRows nodes ys
HaveRows-Shrinks nodes xs ys s h n m =
    let (r, k, p) = h n m in let (q, l, i) = mem-Shrinks xs ys r s k in (q, l, i ∙ p)

approval_row :
    (to : NodeStatus) (a : NodeRow)
    → (a.node.kind == NodeKind.approval) ≡ true
    → ((step_row (some to) none a).node ≡ a.node)
      × (is_waiting (step_row (some to) none a) ≡ true → is_waiting a ≡ true)
approval_row to a k = (refl, λ w. ground (arith, k))

AllWhere-map :
    (test : NodeRow → Bool) (P Q : NodeRow → Type 0) (rows : List NodeRow)
    → ((a : NodeRow) → P a → Q a)
    → AllWhere test P rows
    → AllWhere test Q rows
AllWhere-map test P Q [] f h = tt
AllWhere-map test P Q (a ∷ rows) f (h, k) = (λ t. f a (h t), AllWhere-map test P Q rows f k)

emit_node_status-Shrinks :
    (s : WorkState) (r : NodeRow) (to : NodeStatus)
    → UniqueIds s.tables.nodes
    → Memᴰ r s.tables.nodes
    → (r.node.kind == NodeKind.approval) ≡ true
    → Shrinks s.tables.nodes (emit_node_status as_is s r.node.id to).tables.nodes
unfolding emit_node_status emit_work apply_work apply_step
emit_node_status-Shrinks s r to u m k =
    Shrinks-change_where (λ n. n.node.id == r.node.id) (step_row (some to) none) s.tables.nodes
      (AllWhere-map _ _ _ s.tables.nodes (λ a. approval_row to a)
        (AllWhere-approval s.tables.nodes r u m k))

module _ {World : Type 0} (services : Services World) where
  pub refresh-Shrinks :
      (s t : RunState World) (graph_id : String) (nodes : List WorkNode)
      → UniqueIds s.work.tables.nodes
      → HaveRows nodes s.work.tables.nodes
      → refresh services s graph_id nodes ≡ did t
      → Shrinks s.work.tables.nodes t.work.tables.nodes
  unfolding refresh
  refresh-Shrinks s t graph_id [] u h e =
      let p : s ≡ t = ground arith in rw (sym p) (Shrinks-refl s.work.tables.nodes)
  refresh-Shrinks s t graph_id (n ∷ nodes) u h e =
      let later : HaveRows nodes s.work.tables.nodes = λ m k. h m (Memᴰ.tail k) in
      elim (Bool-cases (n.kind == NodeKind.approval)) [
        | inr k ↦ refresh-Shrinks s t graph_id nodes u later (rw (k, refresh) at e)
        | inl k ↦ elim (Option-cases (services.latest_approval s.world graph_id n.id)) [
          | inl a ↦
              refresh-Shrinks s t graph_id nodes u later (rw (a, refresh) at (rw (k, refresh) at e))
          | inr (approval_id, a) ↦ elim (Option-cases (find_node n.id s.work.tables.nodes)) [
            | inl f ↦ ground (arith, k, a, f)
            | inr (row, f) ↦
                let (x, status) = services.assert_current s.world approval_id (scope_at n) in
                elim (Bool-cases (node_status_for status == row.status)) [
                  | inl b ↦
                      refresh-Shrinks (in_world s x) t graph_id nodes u later
                        (rw b at (rw (f, refresh) at (rw (a, refresh) at (rw (k, refresh) at e))))
                  | inr b ↦
                      let next : RunState World = record s {
                        work = emit_node_status as_is s.work n.id (node_status_for status);
                        world = x;
                      } in
                      let (r, m, p) = h n (Memᴰ.head refl) in
                      let one : Shrinks s.work.tables.nodes next.work.tables.nodes =
                        subst
                          (λ id.
                            Shrinks s.work.tables.nodes
                              (emit_node_status as_is s.work id
                                (node_status_for status)).tables.nodes)
                          (ap (λ z. z.id) p)
                          (emit_node_status-Shrinks s.work r (node_status_for status) u m
                            (rw p k)) in
                      Shrinks-trans s.work.tables.nodes next.work.tables.nodes t.work.tables.nodes
                        one
                        (refresh-Shrinks next t graph_id nodes
                          (UniqueIds-Shrinks s.work.tables.nodes next.work.tables.nodes one u)
                          (HaveRows-Shrinks nodes s.work.tables.nodes next.work.tables.nodes one
                            later)
                          (rw b at
                            (rw (f, refresh) at (rw (a, refresh) at (rw (k, refresh) at e)))))
                ]
          ]
        ]
      ]
