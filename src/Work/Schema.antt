-- ===== src/Work/Schema.antt =====
-- shiroe/work/schema.py: the types of a work graph and what their constructors refuse. A frozen
-- dataclass is a record, and a function that builds it or raises. `backoff_s` is a whole number of
-- some unit of time, since the model has no floats.
use shiroe.Prelude.{
  ℕ, String, Bool, true, false, not, ◌&&◌, ◌||◌, Option, none, some, List, [], ◌∷◌, Equatable,
  enum_eq, nth_or, ◌==◌, string_eq, if◌then◌else◌, ◌≡◌, refl,
}
use shiroe.Prelude.Text.{codes, strip}
use shiroe.Prelude.Json.{Fields}
use shiroe.Prelude.Int.{ℤ, at_least}

pub data NodeKind : Type 0 where
  task decision approval review : NodeKind

abbrev pub all_node_kinds : List NodeKind
all_node_kinds = task ∷ decision ∷ approval ∷ review ∷ []

abbrev pub node_kinds_code : NodeKind → ℕ
node_kinds_code task = 0
node_kinds_code decision = 1
node_kinds_code approval = 2
node_kinds_code review = 3

pub node_kinds_code-back : (a d : NodeKind) → nth_or all_node_kinds (node_kinds_code a) d ≡ a
unfolding nth_or
node_kinds_code-back task d = refl
node_kinds_code-back decision d = refl
node_kinds_code-back approval d = refl
node_kinds_code-back review d = refl

instance abbrev pub node_kind_eq : Equatable NodeKind
node_kind_eq = enum_eq all_node_kinds node_kinds_code node_kinds_code-back

pub data GraphStatus : Type 0 where
  draft ready running paused completed failed cancelled : GraphStatus

pub data NodeStatus : Type 0 where
  pending ready running blocked completed failed skipped : NodeStatus

abbrev pub all_node_statuses : List NodeStatus
all_node_statuses =
    NodeStatus.pending ∷ NodeStatus.ready ∷ NodeStatus.running ∷ NodeStatus.blocked
    ∷ NodeStatus.completed ∷ NodeStatus.failed ∷ NodeStatus.skipped ∷ []

abbrev pub node_statuses_code : NodeStatus → ℕ
node_statuses_code NodeStatus.pending = 0
node_statuses_code NodeStatus.ready = 1
node_statuses_code NodeStatus.running = 2
node_statuses_code NodeStatus.blocked = 3
node_statuses_code NodeStatus.completed = 4
node_statuses_code NodeStatus.failed = 5
node_statuses_code NodeStatus.skipped = 6

pub node_statuses_code-back :
    (a d : NodeStatus) → nth_or all_node_statuses (node_statuses_code a) d ≡ a
unfolding nth_or
node_statuses_code-back NodeStatus.pending d = refl
node_statuses_code-back NodeStatus.ready d = refl
node_statuses_code-back NodeStatus.running d = refl
node_statuses_code-back NodeStatus.blocked d = refl
node_statuses_code-back NodeStatus.completed d = refl
node_statuses_code-back NodeStatus.failed d = refl
node_statuses_code-back NodeStatus.skipped d = refl

instance abbrev pub node_status_eq : Equatable NodeStatus
node_status_eq = enum_eq all_node_statuses node_statuses_code node_statuses_code-back

-- What `ValueError` and `WorkGraphError` say.
pub data WorkError : Type 0 where
  unknown_kind unknown_status empty_text : String → WorkError
  bad_max_attempts bad_backoff : WorkError
  bad_placement_mode placement_without_node local_placement_with_node : WorkError
  self_edge bad_version foreign_node foreign_edge : WorkError
  no_nodes placement_in_metadata approval_not_required : WorkError
  duplicate_node unknown_from unknown_to : String → WorkError
  has_cycle search_unfinished : WorkError

-- What a constructor returns, or what it raises.
pub data Result {ℓ} (T : Type ℓ) : Type ℓ where
  ok : T → Result T
  err : WorkError → Result T

pub ok-injective {ℓ} : {T : Type ℓ} {x y : T} → ok x ≡ ok y → x ≡ y
ok-injective same = cc

-- `if not test: raise error`
abbrev pub require : Bool → WorkError → Result (Unit {0})
require passed error = if passed then ok tt else err error

infixl 5 ◌>>=◌ ◌>>◌
abbrev pub ◌>>=◌ {ℓ κ} : {T : Type ℓ} {U : Type κ} → Result T → (T → Result U) → Result U
ok x >>= next = next x
err error >>= next = err error

abbrev pub ◌>>◌ {ℓ} : {U : Type ℓ} → Result (Unit {0}) → Result U → Result U
check >> rest = check >>= λ _. rest

-- The first of two steps that succeed together has a value, and the second succeeds on it.
pub bind-eq-ok {ℓ κ} :
    {T : Type ℓ} {U : Type κ} (first : Result T) (next : T → Result U) {end : U}
    → (first >>= next) ≡ ok end
    → (x : T) × (first ≡ ok x) × (next x ≡ ok end)
bind-eq-ok (ok x) next reached = (x, refl, reached)
bind-eq-ok (err error) next reached = cc

-- `_coerce_enum(value, NodeKind, …)`
unfoldable pub coerce_kind : String → Result NodeKind
coerce_kind value =
    if value == "task"
    then ok task
    else if value == "decision"
    then ok decision
    else if value == "approval"
    then ok approval
    else if value == "review"
    then ok review
    else err (unknown_kind value)

-- `_coerce_enum(value, GraphStatus, …)`
unfoldable pub coerce_graph_status : String → Result GraphStatus
coerce_graph_status value =
    if value == "draft"
    then ok GraphStatus.draft
    else if value == "ready"
    then ok GraphStatus.ready
    else if value == "running"
    then ok GraphStatus.running
    else if value == "paused"
    then ok GraphStatus.paused
    else if value == "completed"
    then ok GraphStatus.completed
    else if value == "failed"
    then ok GraphStatus.failed
    else if value == "cancelled"
    then ok GraphStatus.cancelled
    else err (unknown_status value)

-- `bool(value.strip())`
unfoldable pub has_text : String → Bool
unfolding strip
has_text value = elim (strip (codes value)) [ [] ↦ false | c ∷ cs ↦ true ]

unfoldable pub require_text : String → String → Result (Unit {0})
unfolding has_text
require_text value field_name = require (has_text value) (empty_text field_name)

pub record RetryPolicy : Type 0 where
  pub max_attempts : ℕ
  pub backoff_s : ℕ

unfoldable pub make_retry : ℤ → ℤ → Result RetryPolicy
unfolding at_least
make_retry max_attempts backoff_s = elim (at_least 1 max_attempts) [
  | none ↦ err bad_max_attempts
  | some n ↦ elim (at_least 0 backoff_s) [
    | none ↦ err bad_backoff
    | some b ↦ ok (record { max_attempts = n; backoff_s = b })
  ]
]

pub record Placement : Type 0 where
  pub mode : String
  pub node_id : Option String

-- `not node_id`
unfoldable pub no_name : Option String → Bool
no_name none = true
no_name (some name) = name == ""

is_none : Option String → Bool
is_none none = true
is_none (some name) = false

unfoldable pub make_placement : String → Option String → Result Placement
unfolding no_name is_none
make_placement mode node_id = do
  require (mode == "local" || mode == "node") bad_placement_mode
  require (not (mode == "node" && no_name node_id)) placement_without_node
  require (not (mode == "local" && not (is_none node_id))) local_placement_with_node
  ok (record { mode = mode; node_id = node_id })

pub record WorkNode : Type 0 where
  pub id : String
  pub graph_id : String
  pub kind : NodeKind
  pub objective : String
  pub requires : List String
  pub risk : String
  pub approval_required : Bool
  pub independent_review : Bool
  pub evidence_required : Bool
  pub expected_outputs : List String
  pub retry : RetryPolicy
  pub placement : Placement
  pub metadata : Fields

pub record WorkEdge : Type 0 where
  pub graph_id : String
  pub src_id : String
  pub dst_id : String

unfoldable pub make_edge : String → String → String → Result WorkEdge
unfolding require_text
make_edge graph_id src_id dst_id = do
  require_text graph_id "graph_id"
  require_text src_id "src_id"
  require_text dst_id "dst_id"
  require (not (src_id == dst_id)) self_edge
  ok (record { graph_id = graph_id; src_id = src_id; dst_id = dst_id })

pub record WorkGraph : Type 0 where
  pub id : String
  pub objective : String
  pub nodes : List WorkNode
  pub edges : List WorkEdge
  pub constraints : List String
  pub success_criteria : List String
  pub status : GraphStatus
  pub version : ℕ
  pub metadata : Fields

all_nodes_of : String → List WorkNode → Bool
all_nodes_of id [] = true
all_nodes_of id (node ∷ nodes) = node.graph_id == id && all_nodes_of id nodes

all_edges_of : String → List WorkEdge → Bool
all_edges_of id [] = true
all_edges_of id (e ∷ edges) = e.graph_id == id && all_edges_of id edges

-- `WorkGraph(…)`: the record, and the checks of `__post_init__` in their order
unfoldable pub make_graph :
    (id objective : String)
    → List WorkNode
    → List WorkEdge
    → (constraints success_criteria : List String) → (status : String) → (version : ℤ) → Fields
    → Result WorkGraph
unfolding require_text all_nodes_of all_edges_of coerce_graph_status at_least
make_graph id objective nodes edges constraints success_criteria status version metadata = do
  require_text id "graph id"
  require_text objective "objective"
  number ← (elim (at_least 1 version) [ none ↦ err bad_version | some n ↦ ok n ])
  state ← coerce_graph_status status
  require (all_nodes_of id nodes) foreign_node
  require (all_edges_of id edges) foreign_edge
  ok (record {
    id = id;
    objective = objective;
    nodes = nodes;
    edges = edges;
    constraints = constraints;
    success_criteria = success_criteria;
    status = state;
    version = number;
    metadata = metadata;
  })
