-- ===== src/Work/Readiness/Members.antt =====
-- What the tests and the loops of the readiness find.
use mathlib.Core.List.{Memᴰ}
use mathlib.Core.List.Memᴰ
use shiroe.Prelude.{
  String, Bool, true, none, some, List, [], ◌∷◌, contains, contains_iff, ◌==◌, string_eq, ◌≡◌, refl,
  ◌⊎◌, inl, inr, ⊎_elim, ◌↔◌, Bool-cases, Option-cases, arith, ap, sym, subst, ◌∙◌,
}
use shiroe.Work.Schema.{node_kind_eq, NodeStatus, node_status_eq, WorkNode, WorkEdge, WorkGraph}
use shiroe.Work.Readiness.{
  Statuses, status_of, is_pending, is_done, predecessors, all_done, node_of, keys, filter,
  edges_known,
}

abbrev pub IsPending : Statuses → String → Type 0
IsPending statuses id =
    (status_of statuses id ≡ none) ⊎ (status_of statuses id ≡ some NodeStatus.pending)

abbrev pub IsDone : Statuses → String → Type 0
IsDone statuses id =
    (status_of statuses id ≡ some NodeStatus.completed)
    ⊎ (status_of statuses id ≡ some NodeStatus.skipped)

-- A node that waits, and every node with an edge into it is done.
abbrev pub IsReady : WorkGraph → Statuses → String → Type 0
IsReady graph statuses id =
    (node : WorkNode) × Memᴰ node graph.nodes
    × (node.id ≡ id)
    × IsPending statuses id
    × ((e : WorkEdge) → Memᴰ e graph.edges → e.dst_id ≡ id → IsDone statuses e.src_id)

pub is_pending_iff :
    (statuses : Statuses) (id : String) → (is_pending statuses id ≡ true) ↔ IsPending statuses id
unfolding is_pending
is_pending_iff statuses id = elim (Option-cases (status_of statuses id)) [
  | inl n ↦ (λ h. inl n, λ h. ground arith)
  | inr (st, n) ↦ (
    λ h. inr (n ∙ ap some ((node_status_eq.test_iff st NodeStatus.pending).0 (ground arith))),
    λ h. ground (arith, node_status_eq.test_iff st NodeStatus.pending),
  )
]

is_done_iff :
    (statuses : Statuses) (id : String) → (is_done statuses id ≡ true) ↔ IsDone statuses id
unfolding is_done contains
is_done_iff statuses id = elim (Option-cases (status_of statuses id)) [
  | inl n ↦ (λ h. ground arith, λ h. ground arith)
  | inr (st, n) ↦ (
    λ h.
        let c : contains (NodeStatus.completed ∷ NodeStatus.skipped ∷ []) st ≡ true =
          ground arith in
        let m = (contains_iff (NodeStatus.completed ∷ NodeStatus.skipped ∷ []) st).0 c in
        ⊎_elim (λ q. inl (n ∙ ap some q))
          (λ k.
            ⊎_elim (λ q. inr (n ∙ ap some q)) (λ o. absurd (Memᴰ.not-nil o)) (Memᴰ.cases_cons k))
          (Memᴰ.cases_cons m),
    λ h. ground arith,
  )
]

pub all_done_iff :
    (statuses : Statuses) (preds : List String)
    → (all_done statuses preds ≡ true) ↔ ((p : String) → Memᴰ p preds → IsDone statuses p)
unfolding all_done
all_done_iff statuses [] = (λ h p m. absurd (Memᴰ.not-nil m), λ h. refl)
all_done_iff statuses (q ∷ preds) =
    let (fwd, bwd) = all_done_iff statuses preds in
    (
      λ h p m.
          ⊎_elim (λ e. rw e ((is_done_iff statuses q).0 (ground arith)))
            (λ n. fwd (ground arith) p n) (Memᴰ.cases_cons m),
      λ h.
          let a = (is_done_iff statuses q).1 (h q (Memᴰ.head refl)) in
          let b = bwd (λ p m. h p (Memᴰ.tail m)) in ground arith,
    )

pub mem-predecessors :
    (edges : List WorkEdge) (id p : String)
    → Memᴰ p (predecessors edges id)
      ↔ ((e : WorkEdge) × Memᴰ e edges × (e.dst_id ≡ id) × (e.src_id ≡ p))
unfolding predecessors
mem-predecessors [] id p = (λ m. absurd (Memᴰ.not-nil m), λ (e, m, h, g). absurd (Memᴰ.not-nil m))
mem-predecessors (d ∷ edges) id p =
    let (fwd, bwd) = mem-predecessors edges id p in
    elim (Bool-cases (d.dst_id == id)) [
      | inl t ↦ rw t (
        λ m.
            ⊎_elim (λ q. (d, Memᴰ.head refl, (string_eq.test_iff d.dst_id id).0 t, sym q))
              (λ n. let (e, k, h, g) = fwd n in (e, Memᴰ.tail k, h, g)) (Memᴰ.cases_cons m),
        λ (e, m, h, g).
            ⊎_elim (λ q. Memᴰ.head (sym g ∙ ap (λ x. x.src_id) q))
              (λ n. Memᴰ.tail (bwd (e, n, h, g))) (Memᴰ.cases_cons m),
      )
      | inr t ↦ rw t (
        λ m. let (e, k, h, g) = fwd m in (e, Memᴰ.tail k, h, g),
        λ (e, m, h, g).
            ⊎_elim (λ q. ground (arith, string_eq.test_iff d.dst_id id, ap (λ x. x.dst_id) q))
              (λ n. bwd (e, n, h, g)) (Memᴰ.cases_cons m),
      )
    ]

pub mem-filter :
    (test : String → Bool) (ids : List String) (id : String)
    → Memᴰ id (filter test ids) ↔ (Memᴰ id ids × (test id ≡ true))
unfolding filter
mem-filter test [] id = (λ m. absurd (Memᴰ.not-nil m), λ h. h.0)
mem-filter test (x ∷ ids) id =
    let (fwd, bwd) = mem-filter test ids id in
    elim (Bool-cases (test x)) [
      | inl t ↦ rw t (
        λ m.
            ⊎_elim (λ q. (Memᴰ.head q, rw q t)) (λ n. (Memᴰ.tail (fwd n).0, (fwd n).1))
              (Memᴰ.cases_cons m),
        λ (m, h). ⊎_elim (λ q. Memᴰ.head q) (λ n. Memᴰ.tail (bwd (n, h))) (Memᴰ.cases_cons m),
      )
      | inr t ↦ rw t (
        λ m. (Memᴰ.tail (fwd m).0, (fwd m).1),
        λ (m, h).
            ⊎_elim
              (λ q. let c : test x ≡ true = subst (λ k. test k ≡ true) q h in absurd (cc (c, t)))
              (λ n. bwd (n, h)) (Memᴰ.cases_cons m),
      )
    ]

-- An id names one node.
abbrev pub AreUnique : List WorkNode → Type 0
AreUnique nodes = (a b : WorkNode) → Memᴰ a nodes → Memᴰ b nodes → a.id ≡ b.id → a ≡ b

pub mem-keys :
    (nodes : List WorkNode) (id : String)
    → Memᴰ id (keys nodes) ↔ ((n : WorkNode) × Memᴰ n nodes × (n.id ≡ id))
unfolding keys
mem-keys [] id = (λ m. absurd (Memᴰ.not-nil m), λ (n, m, h). absurd (Memᴰ.not-nil m))
mem-keys (n ∷ nodes) id =
    let (fwd, bwd) = mem-keys nodes id in
    (
      λ m.
          ⊎_elim (λ q. (n, Memᴰ.head refl, sym q))
            (λ k. let (a, b, c) = fwd k in (a, Memᴰ.tail b, c)) (Memᴰ.cases_cons m),
      λ (a, m, h).
          ⊎_elim (λ q. Memᴰ.head (sym h ∙ ap (λ x. x.id) q)) (λ k. Memᴰ.tail (bwd (a, k, h)))
            (Memᴰ.cases_cons m),
    )

pub node_of-mem :
    (nodes : List WorkNode) (id : String) (n : WorkNode)
    → node_of nodes id ≡ some n
    → Memᴰ n nodes × (n.id ≡ id)
unfolding node_of
node_of-mem [] id n h = cc
node_of-mem (a ∷ nodes) id n h = elim (Option-cases (node_of nodes id)) [
  | inr (m, e) ↦ let (k, i) = node_of-mem nodes id n (ground arith) in (Memᴰ.tail k, i)
  | inl e ↦ elim (Bool-cases (a.id == id)) [
    | inl t ↦
        let p : a ≡ n = ground arith in
        (Memᴰ.head (sym p), ground (arith, string_eq.test_iff a.id id))
    | inr t ↦ ground arith
  ]
]

pub node_of-none :
    (nodes : List WorkNode) (id : String) (n : WorkNode)
    → node_of nodes id ≡ none
    → Memᴰ n nodes
    → n.id ≡ id
    → ⊥
unfolding node_of
node_of-none [] id n h m i = Memᴰ.not-nil m
node_of-none (a ∷ nodes) id n h m i = elim (Option-cases (node_of nodes id)) [
  | inr (k, e) ↦ ground arith
  | inl e ↦
      ⊎_elim (λ q. ground (arith, string_eq.test_iff a.id id, ap (λ x. x.id) q))
        (λ k. node_of-none nodes id n e k i) (Memᴰ.cases_cons m)
]

pub edges_known-true :
    (ids : List String) (edges : List WorkEdge)
    → ((e : WorkEdge) → Memᴰ e edges → Memᴰ e.dst_id ids)
    → edges_known ids edges ≡ true
unfolding edges_known
edges_known-true ids [] h = refl
edges_known-true ids (e ∷ edges) h =
    let c = (contains_iff ids e.dst_id).1 (h e (Memᴰ.head refl)) in
    let d = edges_known-true ids edges (λ x m. h x (Memᴰ.tail m)) in ground arith
