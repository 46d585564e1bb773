-- ===== src/Work/Compiler.antt =====
-- shiroe/work/compiler.py: from the spec of a graph to a checked graph. A spec is read by its keys;
-- `none` is a missing key. A value of a type that the compiler does not expect has no counterpart.
pub mod Acyclic
pub mod Graphs
use shiroe.Prelude.{
  ℕ, String, Bool, true, false, not, ◌&&◌, ◌||◌, ◌*◌, Option, none, some, List, [], ◌∷◌, ◌++◌, map,
  contains, ◌==◌, string_eq, if◌then◌else◌,
}
use shiroe.Prelude.Json.{Fields, has_field}
use shiroe.Prelude.Int.{ℤ, pos}
use shiroe.Prelude.Sort.{text_leb, sort_by}
use shiroe.Work.Cycle.{done, cycle, out_of_fuel, scan}
use shiroe.Work.Cycle.Bound.{enough}
use shiroe.Work.Schema.{
  NodeKind, task, approval, node_kind_eq, no_nodes, placement_in_metadata, approval_not_required,
  duplicate_node, unknown_from, unknown_to, has_cycle, search_unfinished, Result, ok, err, ◌>>=◌,
  ◌>>◌, require, coerce_kind, require_text, RetryPolicy, make_retry, Placement, make_placement,
  WorkNode, WorkEdge, make_edge, WorkGraph, make_graph,
}

pub record RawNode : Type 0 where
  pub id : Option String
  pub kind : Option String
  pub objective : Option String
  pub requires : List String
  pub risk : Option String
  pub approval_required : Bool
  pub independent_review : Bool
  pub evidence_required : Bool
  pub expected_outputs : List String
  pub max_attempts : Option ℤ
  pub backoff_s : Option ℤ
  pub placement_mode : Option String
  pub placement_node : Option String
  pub metadata : Fields

pub record RawEdge : Type 0 where
  pub from : Option String
  pub src_id : Option String
  pub to : Option String
  pub dst_id : Option String

pub record RawSpec : Type 0 where
  pub id : Option String
  pub objective : Option String
  pub nodes : List RawNode
  pub edges : List RawEdge
  pub constraints : List String
  pub success_criteria : List String
  pub status : Option String
  pub version : Option ℤ
  pub metadata : Fields

-- `raw.get(key, default)`
abbrev pub or_default {ℓ} : {A : Type ℓ} → Option A → A → A
or_default none d = d
or_default (some a) d = a

pub make_node : RawNode → String → Result WorkNode
unfolding make_retry make_placement coerce_kind require_text has_field
make_node raw graph_id = do
  require (not (has_field "placement" raw.metadata)) placement_in_metadata
  retry ← make_retry (or_default raw.max_attempts (pos 1)) (or_default raw.backoff_s (pos 0))
  placement ← make_placement (or_default raw.placement_mode "local") raw.placement_node
  require_text (or_default raw.id "") "node id"
  require_text graph_id "graph_id"
  require_text (or_default raw.objective "") "objective"
  kind ← coerce_kind (or_default raw.kind "task")
  require (not (kind == approval) || raw.approval_required) approval_not_required
  ok (record {
    id = or_default raw.id "";
    graph_id = graph_id;
    kind = kind;
    objective = or_default raw.objective "";
    requires = raw.requires;
    risk = or_default raw.risk "low";
    approval_required = raw.approval_required;
    independent_review = raw.independent_review;
    evidence_required = raw.evidence_required;
    expected_outputs = raw.expected_outputs;
    retry = retry;
    placement = placement;
    metadata = raw.metadata;
  })

-- `_edge`
edge_of : String → RawEdge → Result WorkEdge
unfolding make_edge
edge_of graph_id raw =
    make_edge graph_id (or_default raw.from (or_default raw.src_id ""))
      (or_default raw.to (or_default raw.dst_id ""))

abbrev pub ids : List WorkNode → List String
ids nodes = map (λ (n : WorkNode). n.id) nodes

-- the loop that fills `nodes_by_id`, in insertion order
pub collect_nodes : String → List RawNode → List WorkNode → Result (List WorkNode)
unfolding make_node
collect_nodes graph_id [] nodes_by_id = ok nodes_by_id
collect_nodes graph_id (item ∷ items) nodes_by_id = do
  node ← make_node item graph_id
  require (not (contains (ids nodes_by_id) node.id)) (duplicate_node node.id)
  collect_nodes graph_id items (nodes_by_id ++ node ∷ [])

collect_edges : String → List RawEdge → Result (List WorkEdge)
unfolding edge_of
collect_edges graph_id [] = ok []
collect_edges graph_id (raw ∷ raws) = do
  e ← edge_of graph_id raw
  rest ← collect_edges graph_id raws
  ok (e ∷ rest)

-- the order of the keys `(e.src_id, e.dst_id)`
unfoldable pub edge_leb : WorkEdge → WorkEdge → Bool
edge_leb a b =
    if a.src_id == b.src_id then text_leb a.dst_id b.dst_id else text_leb a.src_id b.src_id

pub check_endpoints : List String → List WorkEdge → Result (Unit {0})
check_endpoints known [] = ok tt
check_endpoints known (e ∷ edges) = do
  require (contains known e.src_id) (unknown_from e.src_id)
  require (contains known e.dst_id) (unknown_to e.dst_id)
  check_endpoints known edges

-- `outgoing[node_id]`
pub outgoing : List WorkEdge → String → List String
outgoing [] node_id = []
outgoing (e ∷ edges) node_id =
    let rest = outgoing edges node_id in if e.src_id == node_id then e.dst_id ∷ rest else rest

pub reject_cycles : List String → List WorkEdge → Result (Unit {0})
unfolding scan outgoing enough sort_by
reject_cycles node_ids edges =
    elim (scan (outgoing edges) (2 * enough (outgoing edges) node_ids) (sort_by text_leb node_ids)
      [] []) [
        | done visiting visited ↦ ok tt
        | cycle ↦ err has_cycle
        | out_of_fuel ↦ err search_unfinished
      ]

abbrev pub node_leb : WorkNode → WorkNode → Bool
node_leb a b = text_leb a.id b.id

-- what the compiler knows when the checks on nodes and edges are done
pub checked_parts : RawSpec → Result (List WorkNode × List WorkEdge)
unfolding collect_nodes collect_edges edge_leb check_endpoints reject_cycles
checked_parts raw = do
  let graph_id = or_default raw.id ""
  require (elim raw.nodes [ [] ↦ false | n ∷ ns ↦ true ]) no_nodes
  nodes_by_id ← collect_nodes graph_id raw.nodes []
  found ← collect_edges graph_id raw.edges
  let edges = sort_by edge_leb found
  check_endpoints (ids nodes_by_id) edges
  reject_cycles (ids nodes_by_id) edges
  ok (nodes_by_id, edges)

unfoldable pub compile_work_graph : RawSpec → Result WorkGraph
unfolding checked_parts make_graph
compile_work_graph raw = do
  parts ← checked_parts raw
  make_graph (or_default raw.id "") (or_default raw.objective "") (sort_by node_leb parts.0) parts.1
      raw.constraints raw.success_criteria (or_default raw.status "draft")
      (or_default raw.version (pos 1)) raw.metadata
