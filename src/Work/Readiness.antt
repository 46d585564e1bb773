-- ===== src/Work/Readiness.antt =====
-- shiroe/work/readiness.py and `ready_node_ids` of shiroe/work/store.py. The statuses are a dict; `none`
-- is the KeyError of an edge into a node that is not there.
pub mod Members
pub mod Ready
use shiroe.Prelude.{
  String, Bool, true, false, ◌&&◌, not, Option, none, some, List, [], ◌∷◌, ◌++◌, contains, ◌==◌,
  string_eq, if◌then◌else◌,
}
use shiroe.Prelude.Sets.{sorted_set}
use shiroe.Work.Schema.{
  NodeKind, node_kind_eq, NodeStatus, node_status_eq, WorkNode, WorkEdge, WorkGraph,
}

abbrev pub Statuses : Type 0
Statuses = List (String × NodeStatus)

-- `statuses.get(node_id)`
unfoldable pub status_of : Statuses → String → Option NodeStatus
status_of [] node_id = none
status_of ((id, status) ∷ statuses) node_id =
    let rest = status_of statuses node_id in if id == node_id then some status else rest

-- `statuses.get(node_id, "pending") == "pending"`
unfoldable pub is_pending : Statuses → String → Bool
unfolding status_of
is_pending statuses node_id = elim (status_of statuses node_id) [
  | none ↦ true
  | some status ↦ status == NodeStatus.pending
]

-- `statuses.get(pred) in _READY_PREDECESSORS`
unfoldable pub is_done : Statuses → String → Bool
unfolding status_of
is_done statuses pred = elim (status_of statuses pred) [
  | none ↦ false
  | some status ↦ contains (NodeStatus.completed ∷ NodeStatus.skipped ∷ []) status
]

-- `predecessors[node_id]`
unfoldable pub predecessors : List WorkEdge → String → List String
predecessors [] node_id = []
predecessors (e ∷ edges) node_id =
    let rest = predecessors edges node_id in if e.dst_id == node_id then e.src_id ∷ rest else rest

unfoldable pub all_done : Statuses → List String → Bool
unfolding is_done
all_done statuses [] = true
all_done statuses (pred ∷ preds) = is_done statuses pred && all_done statuses preds

-- `nodes_by_id[node_id]`: of nodes with the same id, the last
unfoldable pub node_of : List WorkNode → String → Option WorkNode
node_of [] node_id = none
node_of (n ∷ nodes) node_id =
    let later = node_of nodes node_id in
    elim later [ some m ↦ some m | none ↦ if n.id == node_id then some n else none ]

-- the keys of `nodes_by_id`
unfoldable pub keys : List WorkNode → List String
keys [] = []
keys (n ∷ nodes) = n.id ∷ keys nodes

unfoldable pub filter : (String → Bool) → List String → List String
filter test [] = []
filter test (id ∷ ids) = let rest = filter test ids in if test id then id ∷ rest else rest

-- no KeyError in the loop over the edges
unfoldable pub edges_known : List String → List WorkEdge → Bool
edges_known ids [] = true
edges_known ids (e ∷ edges) = contains ids e.dst_id && edges_known ids edges

-- the body of the loop over the nodes
unfoldable pub is_ready : WorkGraph → Statuses → String → Bool
unfolding is_pending all_done predecessors node_of
is_ready graph statuses node_id = elim (node_of graph.nodes node_id) [
  | none ↦ false
  | some node ↦
      if is_pending statuses node_id
      then if node.kind == NodeKind.approval
        then false
        else all_done statuses (predecessors graph.edges node_id)
      else false
]

unfoldable pub ready_node_ids : WorkGraph → Statuses → Option (List String)
unfolding is_ready edges_known keys filter
ready_node_ids graph statuses =
    if edges_known (keys graph.nodes) graph.edges
    then some (filter (is_ready graph statuses) (sorted_set (keys graph.nodes)))
    else none

-- the conditions of the loop of `WorkStore.ready_node_ids` over the approval nodes
unfoldable pub is_ready_approval : WorkGraph → Statuses → WorkNode → Bool
unfolding is_pending all_done predecessors
is_ready_approval graph statuses n =
    (n.kind == NodeKind.approval)
    && (is_pending statuses n.id && all_done statuses (predecessors graph.edges n.id))

-- what that loop adds
unfoldable pub ready_approvals : WorkGraph → Statuses → List WorkNode → List String
unfolding is_ready_approval
ready_approvals graph statuses [] = []
ready_approvals graph statuses (n ∷ nodes) =
    let rest = ready_approvals graph statuses nodes in
    if is_ready_approval graph statuses n then n.id ∷ rest else rest

-- `WorkStore.ready_node_ids`
unfoldable pub store_ready_node_ids : WorkGraph → Statuses → Option (List String)
unfolding ready_node_ids ready_approvals sorted_set
store_ready_node_ids graph statuses = elim (ready_node_ids graph statuses) [
  | none ↦ none
  | some ready ↦ some (sorted_set (ready ++ ready_approvals graph statuses graph.nodes))
]
