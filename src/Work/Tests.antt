-- ===== src/Work/Tests.antt =====
-- A small graph through the compiler, and graphs that it refuses.
use mathlib.Core.List.{Memᴰ}
use mathlib.Core.List.Memᴰ
use shiroe.Prelude.{
  String, ◌≡◌, refl, ◌↔◌, ◌⊎◌, ⊎_elim, ap, sym, ◌∙◌, ◌≢◌, string_eq, false, none, some, List, [],
  ◌∷◌, contains,
}
use shiroe.Prelude.Json.{end}
use shiroe.Prelude.Int.{pos}
use shiroe.Prelude.Sort.{sort_by}
use shiroe.Work.Cycle.{Walk}
use shiroe.Work.Readiness.{Statuses, store_ready_node_ids}
use shiroe.Work.Readiness.Members.{AreUnique, IsReady}
use shiroe.Work.Readiness.Ready.{store_ready_node_ids_iff}
use shiroe.Work.Schema.{
  task, GraphStatus, NodeStatus, ok, err, has_cycle, unknown_to, WorkNode, WorkEdge, WorkGraph,
  make_graph,
}
use shiroe.Work.Compiler.{RawNode, RawEdge, RawSpec, outgoing, reject_cycles, compile_work_graph}
use shiroe.Work.Compiler.Acyclic.{EndpointsIn, reject_cycles_iff}
use shiroe.Work.Compiler.Graphs.{IsGoodGraph, compile-IsGoodGraph}

abbrev raw_node : String → RawNode
raw_node id = record {
  id = some id;
  kind = none;
  objective = some "do it";
  requires = [];
  risk = none;
  approval_required = false;
  independent_review = false;
  evidence_required = false;
  expected_outputs = [];
  max_attempts = some (pos 2);
  backoff_s = none;
  placement_mode = none;
  placement_node = none;
  metadata = end;
}

abbrev raw_edge : String → String → RawEdge
raw_edge src dst = record { from = some src; src_id = none; to = none; dst_id = some dst }

abbrev spec : List RawEdge → RawSpec
spec edges = record {
  id = some "g";
  objective = some "all of it";
  nodes = raw_node "b" ∷ raw_node "a" ∷ [];
  edges = edges;
  constraints = [];
  success_criteria = [];
  status = none;
  version = none;
  metadata = end;
}

abbrev built : String → WorkNode
built id = record {
  id = id;
  graph_id = "g";
  kind = task;
  objective = "do it";
  requires = [];
  risk = "low";
  approval_required = false;
  independent_review = false;
  evidence_required = false;
  expected_outputs = [];
  retry = record { max_attempts = 2; backoff_s = 0 };
  placement = record { mode = "local"; node_id = none };
  metadata = end;
}

abbrev a_to_b : WorkEdge
a_to_b = record { graph_id = "g"; src_id = "a"; dst_id = "b" }

abbrev graph : WorkGraph
graph = record {
  id = "g";
  objective = "all of it";
  nodes = built "a" ∷ built "b" ∷ [];
  edges = a_to_b ∷ [];
  constraints = [];
  success_criteria = [];
  status = GraphStatus.draft;
  version = 1;
  metadata = end;
}

compile_runs : compile_work_graph (spec (raw_edge "a" "b" ∷ [])) ≡ ok graph
unfolding compile_work_graph contains sort_by make_graph
compile_runs = refl

compile_refuses :
    (compile_work_graph (spec (raw_edge "a" "b" ∷ raw_edge "b" "a" ∷ [])) ≡ err has_cycle)
    × (compile_work_graph (spec (raw_edge "a" "c" ∷ [])) ≡ err (unknown_to "c"))
unfolding compile_work_graph contains sort_by make_graph
compile_refuses = (refl, refl)

compile-IsGoodGraph_example : IsGoodGraph graph
compile-IsGoodGraph_example = compile-IsGoodGraph (spec (raw_edge "a" "b" ∷ [])) graph compile_runs

known : EndpointsIn ("a" ∷ "b" ∷ []) (a_to_b ∷ [])
known e m = rw (Memᴰ.eq_of_singleton m) (Memᴰ.head refl, Memᴰ.tail (Memᴰ.head refl))

reject_cycles_iff_example :
    ((reject_cycles ("a" ∷ "b" ∷ []) (a_to_b ∷ []) ≡ ok tt)
      ↔ ((u : String) → ¬ Walk (outgoing (a_to_b ∷ [])) u u))
    × ((reject_cycles ("a" ∷ "b" ∷ []) (a_to_b ∷ []) ≡ ok tt)
        ⊎ (reject_cycles ("a" ∷ "b" ∷ []) (a_to_b ∷ []) ≡ err has_cycle))
reject_cycles_iff_example = reject_cycles_iff ("a" ∷ "b" ∷ []) (a_to_b ∷ []) known

abbrev a_done : Statuses
a_done = ("a", NodeStatus.completed) ∷ ("b", NodeStatus.pending) ∷ []

ready_runs : store_ready_node_ids graph a_done ≡ some ("b" ∷ [])
unfolding store_ready_node_ids contains
ready_runs = refl

apart : ◌≢◌ {A = String} "a" "b"
apart h = cc ((string_eq.test_iff "a" "b").1 h)

graph-AreUnique : AreUnique graph.nodes
graph-AreUnique x y m n h =
    ⊎_elim
      (λ p.
        ⊎_elim (λ q. p ∙ sym q)
          (λ k.
            absurd (apart (ap (λ w. w.id) (sym p) ∙ h ∙ ap (λ w. w.id) (Memᴰ.eq_of_singleton k))))
          (Memᴰ.cases_cons n))
      (λ j.
        ⊎_elim
          (λ q.
            absurd
              (apart (sym (ap (λ w. w.id) (sym (Memᴰ.eq_of_singleton j)) ∙ h ∙ ap (λ w. w.id) q))))
          (λ k. Memᴰ.eq_of_singleton j ∙ sym (Memᴰ.eq_of_singleton k)) (Memᴰ.cases_cons n))
      (Memᴰ.cases_cons m)

graph-ends :
    (e : WorkEdge) → Memᴰ e graph.edges → (n : WorkNode) × Memᴰ n graph.nodes × (n.id ≡ e.dst_id)
graph-ends e m =
    (built "b", Memᴰ.tail (Memᴰ.head refl), ap (λ x. x.dst_id) (sym (Memᴰ.eq_of_singleton m)))

store_ready_node_ids_iff_example :
    (ready : List String) × (store_ready_node_ids graph a_done ≡ some ready)
    × ((id : String) → Memᴰ id ready ↔ IsReady graph a_done id)
store_ready_node_ids_iff_example = store_ready_node_ids_iff graph a_done graph-AreUnique graph-ends
