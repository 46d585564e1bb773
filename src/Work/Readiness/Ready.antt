-- ===== src/Work/Readiness/Ready.antt =====
-- Which nodes the store calls ready.
use mathlib.Core.List.{Memᴰ}
use mathlib.Core.List.Memᴰ
use shiroe.Prelude.{
  String, true, false, some, List, [], ◌∷◌, ◌++◌, ◌==◌, string_eq, ◌≡◌, refl, ◌⊎◌, inl, inr, ⊎_elim,
  ◌↔◌, Bool-cases, Option-cases, arith, ap, sym, subst, ◌∙◌,
}
use shiroe.Prelude.Lists.{Memᴰ-append}
use shiroe.Prelude.Sets.{sorted_set, mem-sorted_set}
use shiroe.Work.Schema.{NodeKind, node_kind_eq, node_status_eq, WorkNode, WorkEdge, WorkGraph}
use shiroe.Work.Readiness.{
  Statuses, is_pending, predecessors, all_done, node_of, keys, filter, edges_known, is_ready,
  is_ready_approval, ready_node_ids, ready_approvals, store_ready_node_ids,
}
use shiroe.Work.Readiness.Members.{
  IsDone, IsReady, AreUnique, is_pending_iff, all_done_iff, mem-predecessors, mem-filter, mem-keys,
  node_of-mem, node_of-none, edges_known-true,
}

module _ (graph : WorkGraph) (statuses : Statuses) where
  predecessors_iff :
      (id : String)
      → (all_done statuses (predecessors graph.edges id) ≡ true)
        ↔ ((e : WorkEdge) → Memᴰ e graph.edges → e.dst_id ≡ id → IsDone statuses e.src_id)
  predecessors_iff id =
      let (fwd, bwd) = all_done_iff statuses (predecessors graph.edges id) in
      (
        λ h e m d. fwd h e.src_id ((mem-predecessors graph.edges id e.src_id).1 (e, m, d, refl)),
        λ h. bwd (λ p m.
            let (e, k, d, s) = (mem-predecessors graph.edges id p).0 m in
            subst (IsDone statuses) s (h e k d)),
      )

  is_ready-IsReady : (id : String) → is_ready graph statuses id ≡ true → IsReady graph statuses id
  unfolding is_ready
  is_ready-IsReady id h = elim (Option-cases (node_of graph.nodes id)) [
    | inl e ↦ ground arith
    | inr (n, e) ↦
        let (m, i) = node_of-mem graph.nodes id n e in
        let p : is_pending statuses id ≡ true = ground arith in
        let d : all_done statuses (predecessors graph.edges id) ≡ true = ground arith in
        (n, m, i, (is_pending_iff statuses id).0 p, (predecessors_iff id).0 d)
  ]

  IsReady-is_ready :
      (n : WorkNode)
      → AreUnique graph.nodes
      → Memᴰ n graph.nodes
      → (n.kind == NodeKind.approval) ≡ false
      → is_pending statuses n.id ≡ true
      → all_done statuses (predecessors graph.edges n.id) ≡ true
      → is_ready graph statuses n.id ≡ true
  unfolding is_ready
  IsReady-is_ready n unique m k p d = elim (Option-cases (node_of graph.nodes n.id)) [
    | inl e ↦ absurd (node_of-none graph.nodes n.id n e m refl)
    | inr (a, e) ↦
        let (l, i) = node_of-mem graph.nodes n.id a e in
        let q : a ≡ n = unique a n l m i in
        let k' : (a.kind == NodeKind.approval) ≡ false = rw q k in ground arith
  ]

  mem-ready_approvals :
      (nodes : List WorkNode) (id : String)
      → Memᴰ id (ready_approvals graph statuses nodes) ↔ (
          (n : WorkNode) × Memᴰ n nodes × (n.id ≡ id) × (is_ready_approval graph statuses n ≡ true))
  unfolding ready_approvals
  mem-ready_approvals [] id =
      (λ m. absurd (Memᴰ.not-nil m), λ (n, m, h, g). absurd (Memᴰ.not-nil m))
  mem-ready_approvals (n ∷ nodes) id =
      let (fwd, bwd) = mem-ready_approvals nodes id in
      elim (Bool-cases (is_ready_approval graph statuses n)) [
        | inl t ↦ rw t (
          λ m.
              ⊎_elim (λ q. (n, Memᴰ.head refl, sym q, t))
                (λ k. let (a, b, c, d) = fwd k in (a, Memᴰ.tail b, c, d)) (Memᴰ.cases_cons m),
          λ (a, m, i, h).
              ⊎_elim (λ q. Memᴰ.head (sym i ∙ ap (λ x. x.id) q)) (λ k. Memᴰ.tail (bwd (a, k, i, h)))
                (Memᴰ.cases_cons m),
        )
        | inr t ↦ rw t (
          λ m. let (a, b, c, d) = fwd m in (a, Memᴰ.tail b, c, d),
          λ (a, m, i, h).
              ⊎_elim
                (λ q.
                  let c = subst (λ k. is_ready_approval graph statuses k ≡ true) q h in
                  absurd (cc (c, t)))
                (λ k. bwd (a, k, i, h)) (Memᴰ.cases_cons m),
        )
      ]

  is_ready_approval-IsReady :
      (n : WorkNode)
      → Memᴰ n graph.nodes
      → is_ready_approval graph statuses n ≡ true
      → IsReady graph statuses n.id
  unfolding is_ready_approval
  is_ready_approval-IsReady n m h =
      let p : is_pending statuses n.id ≡ true = ground arith in
      let d : all_done statuses (predecessors graph.edges n.id) ≡ true = ground arith in
      (n, m, refl, (is_pending_iff statuses n.id).0 p, (predecessors_iff n.id).0 d)

  approval-ready :
      (n : WorkNode)
      → (n.kind == NodeKind.approval) ≡ true
      → is_pending statuses n.id ≡ true
      → all_done statuses (predecessors graph.edges n.id) ≡ true
      → is_ready_approval graph statuses n ≡ true
  unfolding is_ready_approval
  approval-ready n k p d = ground arith

  -- what both lists hold together
  both-IsReady :
      AreUnique graph.nodes
      → (id : String)
      → (Memᴰ id (filter (is_ready graph statuses) (sorted_set (keys graph.nodes)))
          ⊎ Memᴰ id (ready_approvals graph statuses graph.nodes))
        ↔ IsReady graph statuses id
  both-IsReady unique id = (
    ⊎_elim
        (λ m.
          is_ready-IsReady id
            ((mem-filter (is_ready graph statuses) (sorted_set (keys graph.nodes)) id).0 m).1)
        (λ m.
          let (n, k, i, h) = (mem-ready_approvals graph.nodes id).0 m in
          subst (IsReady graph statuses) i (is_ready_approval-IsReady n k h)),
    λ (n, m, i, w, d).
        let p : is_pending statuses n.id ≡ true = rw i ((is_pending_iff statuses id).1 w) in
        let a : all_done statuses (predecessors graph.edges n.id) ≡ true =
          rw i ((predecessors_iff id).1 d) in
        elim (Bool-cases (n.kind == NodeKind.approval)) [
          | inl k ↦ inr ((mem-ready_approvals graph.nodes id).1 (n, m, i, approval-ready n k p a))
          | inr k ↦ inl (
              (mem-filter (is_ready graph statuses) (sorted_set (keys graph.nodes)) id).1 (
                (mem-sorted_set id (keys graph.nodes)).1 ((mem-keys graph.nodes id).1 (n, m, i)),
                subst (λ x. is_ready graph statuses x ≡ true) i (IsReady-is_ready n unique m k p a),
              ))
        ],
  )

  -- whatever the graph, what is listed as ready is a node of it that waits
  pub store_ready_node_ids-IsReady :
      (ready : List String) (id : String)
      → store_ready_node_ids graph statuses ≡ some ready
      → Memᴰ id ready
      → IsReady graph statuses id
  unfolding store_ready_node_ids ready_node_ids
  store_ready_node_ids-IsReady ready id h m =
      let plain = filter (is_ready graph statuses) (sorted_set (keys graph.nodes)) in
      let more = ready_approvals graph statuses graph.nodes in
      elim (Bool-cases (edges_known (keys graph.nodes) graph.edges)) [
        | inr e ↦ ground (arith, e)
        | inl e ↦
            let p : ready ≡ sorted_set (plain ++ more) = ground (arith, e) in
            let k = (mem-sorted_set id (plain ++ more)).0 (subst (λ ids. Memᴰ id ids) p m) in
            ⊎_elim
              (λ l.
                is_ready-IsReady id
                  ((mem-filter (is_ready graph statuses) (sorted_set (keys graph.nodes)) id).0 l).1)
              (λ l.
                let (n, j, i, a) = (mem-ready_approvals graph.nodes id).0 l in
                subst (IsReady graph statuses) i (is_ready_approval-IsReady n j a))
              ((Memᴰ-append id plain more).0 k)
      ]

  -- On a graph whose ids each name one node and whose edges end in its nodes, the store lists as ready
  -- exactly the ids of the nodes that are pending, or have no status, and whose predecessors are each
  -- completed or skipped.
  pub store_ready_node_ids_iff :
      AreUnique graph.nodes
      → ((e : WorkEdge)
          → Memᴰ e graph.edges
          → (n : WorkNode) × Memᴰ n graph.nodes × (n.id ≡ e.dst_id))
      → (ready : List String) × (store_ready_node_ids graph statuses ≡ some ready)
        × ((id : String) → Memᴰ id ready ↔ IsReady graph statuses id)
  unfolding store_ready_node_ids ready_node_ids
  store_ready_node_ids_iff unique ends =
      let known : edges_known (keys graph.nodes) graph.edges ≡ true =
        edges_known-true (keys graph.nodes) graph.edges
          (λ e m. (mem-keys graph.nodes e.dst_id).1 (ends e m)) in
      let plain = filter (is_ready graph statuses) (sorted_set (keys graph.nodes)) in
      let more = ready_approvals graph statuses graph.nodes in
      (
        sorted_set (plain ++ more),
        ground (arith, known),
        λ id.
            let (u, v) = mem-sorted_set id (plain ++ more) in
            let (a, b) = Memᴰ-append id plain more in
            let (f, g) = both-IsReady unique id in (λ m. f (a (u m)), λ r. v (b (g r))),
      )
