-- ===== src/Work/Compiler/Graphs.antt =====
-- What a compiled graph is.
use mathlib.Core.HLevel.{⊥_prop}
use mathlib.Core.Logic.{∥∥₁_elim}
use mathlib.Core.List.{Memᴰ, Mem, Nodup, Nodup-cons, perm_middle, append-nil, map-append, Nodup-nil}
use mathlib.Core.List.Memᴰ
use mathlib.Core.List.Perm
use shiroe.Prelude.{
  String, subst, ◌≤◌, ◌≡◌, inl, inr, List, [], ◌∷◌, ◌++◌, arith, string_eq, true, false, contains,
  contains_iff, not,
}
use shiroe.Prelude.Json.{Fields}
use shiroe.Prelude.Int.{ℤ, pos, at_least}
use shiroe.Prelude.Sort.{sort_by, mem-sort_by, sort_by-perm}
use shiroe.Work.Cycle.{Walk}
use shiroe.Work.Schema.{
  approval, node_kind_eq, WorkNode, WorkEdge, WorkGraph, ok, no_nodes, duplicate_node, ok-injective,
  bind-eq-ok, require, make_retry, make_graph, RetryPolicy,
}
use shiroe.Work.Compiler.{
  RawNode, RawSpec, or_default, make_node, ids, collect_nodes, collect_edges, edge_leb, node_leb,
  check_endpoints, outgoing, reject_cycles, checked_parts, compile_work_graph,
}
use shiroe.Work.Compiler.Acyclic.{EndpointsIn, reject_cycles_iff}

-- What a single node of the graph with this id satisfies.
pub record IsGoodNode (graph_id : String) (n : WorkNode) : Type 0 where
  pub owned : n.graph_id ≡ graph_id
  pub gated : n.kind ≡ approval → n.approval_required ≡ true
  pub tried : 1 ≤ n.retry.max_attempts

make_retry-tried : (m b : ℤ) (r : RetryPolicy) → make_retry m b ≡ ok r → 1 ≤ r.max_attempts
unfolding make_retry at_least
make_retry-tried m b r h = ground arith

make_node-IsGoodNode :
    (raw : RawNode) (graph_id : String) (n : WorkNode)
    → make_node raw graph_id ≡ ok n
    → IsGoodNode graph_id n
unfolding make_node
make_node-IsGoodNode raw graph_id n h = ground (arith, node_kind_eq.test_iff n.kind approval)

-- The nodes collected so far: their ids differ, and each is as a node of the graph has to be.
record AreGoodNodes (graph_id : String) (nodes : List WorkNode) : Type 0 where
  distinct : Nodup (ids nodes)
  good : (n : WorkNode) → Memᴰ n nodes → IsGoodNode graph_id n

not_mem_of_contains : (xs : List String) (a : String) → contains xs a ≡ false → ¬ Mem a xs
not_mem_of_contains xs a h m = ∥∥₁_elim m ⊥_prop (λ k. let c = (contains_iff xs a).1 k in cc)

Nodup-snoc :
    (xs : List String) (a : String) → contains xs a ≡ false → Nodup xs → Nodup (xs ++ a ∷ [])
Nodup-snoc xs a h d =
    let d' : Nodup (a ∷ xs ++ []) = rw append-nil (Nodup-cons.1 (not_mem_of_contains xs a h, d)) in
    Perm.nodup (Perm.symm (perm_middle xs [])) d'

AreGoodNodes-snoc :
    (graph_id : String) (nodes : List WorkNode) (n : WorkNode)
    → contains (ids nodes) n.id ≡ false
    → IsGoodNode graph_id n
    → AreGoodNodes graph_id nodes
    → AreGoodNodes graph_id (nodes ++ n ∷ [])
AreGoodNodes-snoc graph_id nodes n h g a = record {
  distinct = rw map-append (Nodup-snoc (ids nodes) n.id h a.distinct);
  good = λ m k. elim (Memᴰ.append_cases nodes k) [
    | inl old ↦ a.good m old
    | inr new ↦ rw (Memᴰ.eq_of_singleton new) g
  ];
}

collect_nodes-AreGoodNodes :
    (graph_id : String) (items : List RawNode) (acc nodes : List WorkNode)
    → AreGoodNodes graph_id acc
    → collect_nodes graph_id items acc ≡ ok nodes
    → AreGoodNodes graph_id nodes
unfolding collect_nodes
collect_nodes-AreGoodNodes graph_id [] acc nodes a h = let p : acc ≡ nodes = cc in rw p at a
collect_nodes-AreGoodNodes graph_id (item ∷ items) acc nodes a h =
    let (n, made, h1) = bind-eq-ok (make_node item graph_id) _ h in
    let (u, fresh, h2) =
      bind-eq-ok (require (not (contains (ids acc) n.id)) (duplicate_node n.id)) _ h1 in
    let new : contains (ids acc) n.id ≡ false = ground arith in
    collect_nodes-AreGoodNodes graph_id items (acc ++ n ∷ []) nodes
      (AreGoodNodes-snoc graph_id acc n new (make_node-IsGoodNode item graph_id n made) a) h2

check_endpoints-ok :
    (known : List String) (edges : List WorkEdge)
    → check_endpoints known edges ≡ ok tt
    → EndpointsIn known edges
unfolding check_endpoints
check_endpoints-ok known [] h e m = absurd (Memᴰ.not-nil m)
check_endpoints-ok known (e ∷ edges) h e' m = elim (Memᴰ.cases_cons m) [
  | inl p ↦ rw p (
    (contains_iff known e.src_id).0 (ground arith),
    (contains_iff known e.dst_id).0 (ground arith),
  )
  | inr m' ↦ check_endpoints-ok known edges (ground arith) e' m'
]

record AreGoodParts (graph_id : String) (parts : List WorkNode × List WorkEdge) : Type 0 where
  nodes : AreGoodNodes graph_id parts.0
  endpoints : EndpointsIn (ids parts.0) parts.1
  acyclic : (u : String) → ¬ Walk (outgoing parts.1) u u

checked_parts-AreGoodParts :
    (raw : RawSpec) (parts : List WorkNode × List WorkEdge)
    → checked_parts raw ≡ ok parts
    → AreGoodParts (or_default raw.id "") parts
unfolding checked_parts
checked_parts-AreGoodParts raw parts h =
    let (u0, some_raw, h0) =
      bind-eq-ok (require (elim raw.nodes [ [] ↦ false | n ∷ ns ↦ true ]) no_nodes) _ h in
    let (nodes, collected, h1) =
      bind-eq-ok (collect_nodes (or_default raw.id "") raw.nodes []) _ h0 in
    let (found, made, h2) = bind-eq-ok (collect_edges (or_default raw.id "") raw.edges) _ h1 in
    let edges = sort_by edge_leb found in
    let (u1, ends, h3) = bind-eq-ok (check_endpoints (ids nodes) edges) _ h2 in
    let (u2, free, h4) = bind-eq-ok (reject_cycles (ids nodes) edges) _ h3 in
    let known = check_endpoints-ok (ids nodes) edges ends in
    let good =
      collect_nodes-AreGoodNodes (or_default raw.id "") raw.nodes [] nodes
        (record { distinct = Nodup-nil; good = λ n m. absurd (Memᴰ.not-nil m) }) collected in
    let p : ◌≡◌ {A = List WorkNode × List WorkEdge} (nodes, edges) parts = ok-injective h4 in
    subst (AreGoodParts (or_default raw.id "")) p (record {
      nodes = good;
      endpoints = known;
      acyclic = (reject_cycles_iff (ids nodes) edges known).0.0 free;
    })

-- What a compiled graph is: its nodes belong to it, have different ids, at least one attempt each
-- and, if they are approvals, the approval flag; its edges join its nodes, and no node has a walk
-- back to itself.
pub record IsGoodGraph (g : WorkGraph) : Type 0 where
  pub distinct : Nodup (ids g.nodes)
  pub nodes : (n : WorkNode) → Memᴰ n g.nodes → IsGoodNode g.id n
  pub endpoints : EndpointsIn (ids g.nodes) g.edges
  pub acyclic : (u : String) → ¬ Walk (outgoing g.edges) u u
  pub versioned : 1 ≤ g.version

mem-ids :
    (a : String) (nodes : List WorkNode)
    → Memᴰ a (ids nodes)
    → Memᴰ a (ids (sort_by node_leb nodes))
mem-ids a nodes m =
    let (n, k, p) = Memᴰ.of_map (λ (n : WorkNode). n.id) nodes m in
    subst (λ b. Memᴰ b (ids (sort_by node_leb nodes))) p
      (Memᴰ.map (λ (n : WorkNode). n.id) ((mem-sort_by node_leb n nodes).1 k))

make_graph-fields :
    (id objective : String) (nodes : List WorkNode) (edges : List WorkEdge)
    (constraints success_criteria : List String) (status : String) (version : ℤ) (metadata : Fields)
    (g : WorkGraph)
    → make_graph id objective nodes edges constraints success_criteria status version metadata
      ≡ ok g
    → (g.id ≡ id) × (g.nodes ≡ nodes) × (g.edges ≡ edges) × (1 ≤ g.version)
unfolding make_graph
make_graph-fields id objective nodes edges constraints success_criteria status version metadata g
      h =
    ground arith

-- A graph that compiles is a good graph.
pub compile-IsGoodGraph :
    (raw : RawSpec) (g : WorkGraph) → compile_work_graph raw ≡ ok g → IsGoodGraph g
unfolding compile_work_graph
compile-IsGoodGraph raw g h =
    let (parts, made, h1) = bind-eq-ok (checked_parts raw) _ h in
    let good = checked_parts-AreGoodParts raw parts made in
    let sorted = sort_by node_leb parts.0 in
    let (e_id, e_nodes, e_edges, v) =
      make_graph-fields (or_default raw.id "") (or_default raw.objective "") sorted parts.1
        raw.constraints raw.success_criteria (or_default raw.status "draft")
        (or_default raw.version (pos 1)) raw.metadata g h1 in
    record {
      distinct = rw e_nodes (
          Perm.nodup (Perm.symm (Perm.map (λ (n : WorkNode). n.id) (sort_by-perm node_leb parts.0)))
            good.nodes.distinct);
      nodes =
          λ n m. rw e_id (good.nodes.good n ((mem-sort_by node_leb n parts.0).0 (rw e_nodes at m)));
      endpoints = λ e m.
          let (src, dst) = good.endpoints e (rw e_edges at m) in
          rw e_nodes (mem-ids e.src_id parts.0 src, mem-ids e.dst_id parts.0 dst);
      acyclic = rw e_edges good.acyclic;
      versioned = v;
    }
