-- ===== src/Work/StoreTests.antt =====
-- Two graphs in the work store, and what the theorems say of them.
use mathlib.Core.List.{Memᴰ}
use shiroe.Prelude.{
  String, ◌≡◌, refl, sym, ◌≢◌, string_eq, nat_eq, true, false, if◌then◌else◌, none, some, List, [],
  ◌∷◌,
}
use shiroe.Prelude.Json.{end}
use shiroe.Prelude.Sort.{sort_by}
use shiroe.Work.Schema.{task, GraphStatus, NodeStatus, WorkNode, WorkEdge, WorkGraph}
use shiroe.Work.Compiler.{node_leb, edge_leb}
use shiroe.Work.Tables.{NodeRow, WorkEvent, new_row, new_rows, new_edges}
use shiroe.Work.Store.{
  WorkState, did, raises, concurrent_update, get_graph, get_node, create, set_node_status,
  record_output, select,
}
use shiroe.Work.Store.Versions.{set_node_status_once}
use shiroe.Work.Store.Replay.{
  inserts, no_tables, replay_work, Call, creates, sets_node, sets_graph, calls, replay_work-calls,
}
use shiroe.Work.Store.RoundTrip.{get_graph-create, create_takes}

abbrev node_in : String → String → WorkNode
node_in graph_id id = record {
  id = id;
  graph_id = graph_id;
  kind = task;
  objective = "do it";
  requires = [];
  risk = "low";
  approval_required = false;
  independent_review = false;
  evidence_required = false;
  expected_outputs = [];
  retry = record { max_attempts = 2; backoff_s = 0 };
  placement = record { mode = "local"; node_id = none };
  metadata = end;
}

abbrev graph_of : String → List WorkNode → List WorkEdge → WorkGraph
graph_of id nodes edges = record {
  id = id;
  objective = "all of it";
  nodes = nodes;
  edges = edges;
  constraints = [];
  success_criteria = [];
  status = GraphStatus.draft;
  version = 1;
  metadata = end;
}

abbrev b_to_a : WorkEdge
b_to_a = record { graph_id = "g"; src_id = "b"; dst_id = "a" }

abbrev first : WorkGraph
first = graph_of "g" (node_in "g" "b" ∷ node_in "g" "a" ∷ []) (b_to_a ∷ [])

abbrev second : WorkGraph
second = graph_of "h" (node_in "h" "a" ∷ []) []

-- an edge from a node that no row has
abbrev dangling : WorkGraph
dangling =
    graph_of "k" (node_in "k" "c" ∷ []) (record { graph_id = "k"; src_id = "z"; dst_id = "c" } ∷ [])

abbrev as_is : WorkEvent → WorkEvent
as_is e = e

abbrev empty : WorkState
empty = record { tables = no_tables; log = [] }

abbrev stored : WorkState
stored = (create as_is empty first).0

reads_back :
    get_graph stored "g"
    ≡ some (graph_of "g" (node_in "g" "a" ∷ node_in "g" "b" ∷ []) (b_to_a ∷ []))
unfolding get_graph create sort_by
reads_back = refl

all_stored : (create as_is empty first).1 ≡ true
unfolding create
all_stored = refl

get_graph-create_example :
    get_graph stored "g"
    ≡ some (record first {
      nodes = sort_by node_leb first.nodes;
      edges = sort_by edge_leb first.edges;
      metadata = end;
    })
unfolding select new_rows new_edges
get_graph-create_example =
    get_graph-create as_is empty first refl (refl, (refl, tt)) (refl, tt) (tt, ((refl, tt), tt))
      (tt, tt) refl refl all_stored

apart : ◌≢◌ {A = String} "a" "b"
apart h = cc ((string_eq.test_iff "a" "b").1 h)

g_h : ◌≢◌ {A = String} "h" "g"
g_h h = cc ((string_eq.test_iff "h" "g").1 h)

abbrev taken : NodeRow
taken = new_row "h" (node_in "h" "a")

taken_there : Memᴰ taken (create as_is stored second).0.tables.nodes
unfolding create
taken_there = Memᴰ.tail (Memᴰ.head refl)

create_takes_example : ◌≢◌ {A = String} "h" "g"
create_takes_example =
    create_takes as_is stored second (node_in "h" "a") "g" taken refl (Memᴰ.head refl) g_h
      taken_there refl

set_node_status_once_example :
    (t : WorkState) × (set_node_status as_is stored "a" NodeStatus.running 0 ≡ did t)
    × (get_node t "a"
        ≡ some (record (new_row "g" (node_in "g" "a")) {
          status = NodeStatus.running;
          state_version = 1;
        }))
    × (get_node t "b" ≡ get_node stored "b")
    × (set_node_status as_is t "a" NodeStatus.failed 0 ≡ raises (concurrent_update "a"))
    × (record_output as_is t "a" end 0 ≡ raises (concurrent_update "a"))
unfolding get_node create
set_node_status_once_example =
    set_node_status_once as_is stored "a" "b" NodeStatus.running NodeStatus.failed end
      (new_row "g" (node_in "g" "a")) refl refl (λ h. apart (sym h))

abbrev some_calls : List Call
some_calls =
    creates first
    ∷ sets_node "a" NodeStatus.running 0
    ∷ sets_node "a" NodeStatus.failed 0
    ∷ sets_graph "g" GraphStatus.running
    ∷ sets_graph "k" GraphStatus.running
    ∷ creates dangling
    ∷ sets_graph "g" GraphStatus.paused
    ∷ []

same_kind : (e : WorkEvent) → inserts (as_is e) ≡ inserts e
same_kind e = refl

replay_work-calls_example : replay_work no_tables (calls as_is empty some_calls).0.log ≡ (
    if (calls as_is empty some_calls).1 then some (calls as_is empty some_calls).0.tables else none)
unfolding replay_work
replay_work-calls_example = replay_work-calls as_is same_kind empty some_calls refl

dangling_ends : replay_work no_tables (calls as_is empty some_calls).0.log ≡ none
unfolding replay_work calls create
dangling_ends = refl
