-- ===== src/Work/Store/Rows.antt =====
-- The row of a node before and after a step event.
use shiroe.Prelude.{
  String, Option, none, some, List, [], ◌∷◌, ◌≡◌, ◌≢◌, refl, ◌==◌, string_eq, Bool-cases, inl, inr,
  arith,
}
use shiroe.Prelude.Json.{Fields}
use shiroe.Work.Schema.{NodeStatus}
use shiroe.Work.Tables.{NodeRow, Tables, change_where, step_row, apply_step}
use shiroe.Work.Store.{find_node}

step_row-id :
    (to : Option NodeStatus) (output : Option Fields) (n : NodeRow)
    → (step_row to output n).node ≡ n.node
step_row-id none none n = refl
step_row-id none (some o) n = refl
step_row-id (some t) none n = refl
step_row-id (some t) (some o) n = refl

find_node-step :
    (to : Option NodeStatus) (output : Option Fields) (id : String) (nodes : List NodeRow)
    (row : NodeRow)
    → find_node id nodes ≡ some row
    → find_node id (change_where (λ n. n.node.id == id) (step_row to output) nodes)
      ≡ some (step_row to output row)
unfolding find_node change_where
find_node-step to output id [] row h = cc
find_node-step to output id (n ∷ nodes) row h = elim (Bool-cases (n.node.id == id)) [
  | inl t ↦ rw (t, change_where) (ground (arith, step_row-id to output n))
  | inr t ↦ ground (arith, find_node-step to output id nodes row)
]

pub find_node-apply_step :
    (to : Option NodeStatus) (output : Option Fields) (id : String) (t : Tables) (row : NodeRow)
    → find_node id t.nodes ≡ some row
    → find_node id (apply_step id to output t).nodes ≡ some (step_row to output row)
unfolding apply_step
find_node-apply_step to output id t row h = find_node-step to output id t.nodes row h

find_node-step_other :
    (to : Option NodeStatus) (output : Option Fields) (id k : String) (nodes : List NodeRow)
    → id ≢ k
    → find_node id (change_where (λ n. n.node.id == k) (step_row to output) nodes)
      ≡ find_node id nodes
unfolding find_node change_where
find_node-step_other to output id k [] h = refl
find_node-step_other to output id k (n ∷ nodes) h = ground (
  arith,
  step_row-id to output n,
  string_eq.test_iff n.node.id k,
  string_eq.test_iff n.node.id id,
  find_node-step_other to output id k nodes,
)

pub find_node-apply_step_other :
    (to : Option NodeStatus) (output : Option Fields) (id k : String) (t : Tables)
    → id ≢ k
    → find_node id (apply_step k to output t).nodes ≡ find_node id t.nodes
unfolding apply_step
find_node-apply_step_other to output id k t h = find_node-step_other to output id k t.nodes h
