-- ===== src/Work/Tables.antt =====
-- The work tables and the events that are folded into them: `_apply_work` of
-- shiroe/storage/projections.py, with the foreign keys of shiroe/migrations/m0100_current.py. The times in
-- the rows are left out, since nothing decides by them.
use shiroe.Prelude.{
  ℕ, suc, String, Bool, true, false, ◌&&◌, Option, none, some, List, [], ◌∷◌, ◌==◌, string_eq,
  if◌then◌else◌,
}
use shiroe.Prelude.Json.{Fields}
use shiroe.Work.Schema.{GraphStatus, NodeStatus, WorkNode, WorkEdge, WorkGraph}

pub record GraphRow : Type 0 where
  pub id : String
  pub objective : String
  pub constraints : List String
  pub success_criteria : List String
  pub status : GraphStatus
  pub version : ℕ

pub record NodeRow : Type 0 where
  pub node : WorkNode
  pub status : NodeStatus
  pub state_version : ℕ
  pub output : Option Fields

pub record AttemptRow : Type 0 where
  pub id : String
  pub graph_id : String
  pub node_id : String
  pub attempt : ℕ
  pub capability_id : String
  pub state : String
  pub error : Option String
  pub usage : Fields

pub record Tables : Type 0 where
  pub graphs : List GraphRow
  pub nodes : List NodeRow
  pub edges : List WorkEdge
  pub attempts : List AttemptRow

-- The events of the run, the steps and the attempts, with what their payloads hold. The type of an
-- event of a run or a step is its first text.
pub data WorkEvent : Type 0 where
  run_created : WorkGraph → WorkEvent
  run_status : (event_type id : String) → GraphStatus → WorkEvent
  step : (event_type node_id : String) → Option NodeStatus → Option Fields → WorkEvent
  attempt : (event_type : String) → AttemptRow → WorkEvent

-- `INSERT OR REPLACE` by a key: the row with the key goes, and the new one is the last
unfoldable pub put {ℓ} : {A : Type ℓ} → (A → A → Bool) → A → List A → List A
put same a [] = a ∷ []
put same a (x ∷ xs) = let rest = put same a xs in if same x a then rest else x ∷ rest

unfoldable pub put_all {ℓ} : {A : Type ℓ} → (A → A → Bool) → List A → List A → List A
unfolding put
put_all same [] xs = xs
put_all same (a ∷ more) xs = put_all same more (put same a xs)

abbrev pub same_graph : GraphRow → GraphRow → Bool
same_graph a b = a.id == b.id

abbrev pub same_node : NodeRow → NodeRow → Bool
same_node a b = a.node.id == b.node.id

abbrev pub same_edge : WorkEdge → WorkEdge → Bool
same_edge a b = (a.graph_id == b.graph_id) && ((a.src_id == b.src_id) && (a.dst_id == b.dst_id))

-- `UPDATE ... WHERE id=?`
unfoldable pub change_where {ℓ} : {A : Type ℓ} → (A → Bool) → (A → A) → List A → List A
change_where test change [] = []
change_where test change (x ∷ xs) =
    let rest = change_where test change xs in if test x then change x ∷ rest else x ∷ rest

abbrev pub graph_row : WorkGraph → GraphRow
graph_row g = record {
  id = g.id;
  objective = g.objective;
  constraints = g.constraints;
  success_criteria = g.success_criteria;
  status = g.status;
  version = g.version;
}

abbrev pub new_row : String → WorkNode → NodeRow
new_row graph_id n = record {
  node = record n { graph_id = graph_id };
  status = NodeStatus.pending;
  state_version = 0;
  output = none;
}

unfoldable pub new_rows : String → List WorkNode → List NodeRow
new_rows graph_id [] = []
new_rows graph_id (n ∷ nodes) = new_row graph_id n ∷ new_rows graph_id nodes

unfoldable pub new_edges : String → List WorkEdge → List WorkEdge
new_edges graph_id [] = []
new_edges graph_id (e ∷ edges) = record e { graph_id = graph_id } ∷ new_edges graph_id edges

-- `_apply_run_created`, where the foreign keys hold
unfoldable pub apply_run_created : WorkGraph → Tables → Tables
unfolding put put_all new_rows new_edges
apply_run_created g t = record t {
  graphs = put same_graph (graph_row g) t.graphs;
  nodes = put_all same_node (new_rows g.id g.nodes) t.nodes;
  edges = put_all same_edge (new_edges g.id g.edges) t.edges;
}

-- `_apply_run_status`
unfoldable pub apply_run_status : String → GraphStatus → Tables → Tables
unfolding change_where
apply_run_status graph_id status t = record t {
  graphs = change_where (λ g. g.id == graph_id) (λ g. record g { status = status }) t.graphs;
}

-- the four statements of `_apply_step`
abbrev pub step_row : Option NodeStatus → Option Fields → NodeRow → NodeRow
step_row (some to) (some output) n = record n {
  status = to;
  output = some output;
  state_version = suc n.state_version;
}
step_row (some to) none n = record n { status = to; state_version = suc n.state_version }
step_row none (some output) n = record n {
  output = some output;
  state_version = suc n.state_version;
}
step_row none none n = record n { state_version = suc n.state_version }

-- `_apply_step`
unfoldable pub apply_step : String → Option NodeStatus → Option Fields → Tables → Tables
unfolding change_where
apply_step node_id to output t = record t {
  nodes = change_where (λ n. n.node.id == node_id) (step_row to output) t.nodes;
}

-- `_apply_attempt`, where the foreign keys hold: a new row, or the new state of the row with the id
unfoldable pub put_attempt : AttemptRow → List AttemptRow → List AttemptRow
put_attempt a [] = a ∷ []
put_attempt a (b ∷ rows) =
    let rest = put_attempt a rows in
    if b.id == a.id
    then record b { state = a.state; error = a.error; usage = a.usage } ∷ rows
    else b ∷ rest

-- `_apply_work`, where the foreign keys hold
unfoldable pub apply_work : WorkEvent → Tables → Tables
unfolding apply_run_created apply_run_status apply_step put_attempt
apply_work (run_created g) t = apply_run_created g t
apply_work (run_status event_type id status) t = apply_run_status id status t
apply_work (step event_type node_id to output) t = apply_step node_id to output t
apply_work (attempt event_type a) t = record t { attempts = put_attempt a t.attempts }

unfoldable pub has_graph : String → List GraphRow → Bool
has_graph id [] = false
has_graph id (g ∷ graphs) = let rest = has_graph id graphs in if g.id == id then true else rest

unfoldable pub has_node : String → List NodeRow → Bool
has_node id [] = false
has_node id (n ∷ nodes) = let rest = has_node id nodes in if n.node.id == id then true else rest

unfoldable pub has_attempt : String → List AttemptRow → Bool
has_attempt id [] = false
has_attempt id (a ∷ rows) = let rest = has_attempt id rows in if a.id == id then true else rest

-- the edges that are inserted, up to the first one of which an end has no row, and whether these are all
unfoldable pub joined : List NodeRow → List WorkEdge → List WorkEdge × Bool
unfolding has_node
joined rows [] = ([], true)
joined rows (e ∷ edges) =
    let (more, all) : List WorkEdge × Bool = joined rows edges in
    if has_node e.src_id rows && has_node e.dst_id rows then (e ∷ more, all) else ([], false)

-- whether the foreign keys let the statements of an event pass; a row that is there keeps what it refers to
unfoldable pub refers : WorkEvent → Tables → Bool
unfolding joined has_graph has_node has_attempt put_all new_rows
refers (run_created g) t = (joined (put_all same_node (new_rows g.id g.nodes) t.nodes) g.edges).1
refers (run_status event_type id status) t = true
refers (step event_type node_id to output) t = true
refers (attempt event_type a) t =
    if has_attempt a.id t.attempts
    then true
    else has_graph a.graph_id t.graphs && has_node a.node_id t.nodes

-- What the connection holds after a statement that a foreign key refuses: nothing rolls back the ones before.
unfoldable pub refused : WorkEvent → Tables → Tables
unfolding joined put put_all new_rows new_edges
refused (run_created g) t =
    let rows = put_all same_node (new_rows g.id g.nodes) t.nodes in
    record t {
      graphs = put same_graph (graph_row g) t.graphs;
      nodes = rows;
      edges = put_all same_edge (new_edges g.id (joined rows g.edges).0) t.edges;
    }
refused other t = t

-- the fold of an event, and whether it is done: a foreign key may refuse it
unfoldable pub apply_checked : WorkEvent → Tables → Tables × Bool
unfolding apply_work refers refused
apply_checked event t =
    if refers event t then (apply_work event t, true) else (refused event t, false)
