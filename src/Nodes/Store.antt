-- ===== src/Nodes/Store.antt =====
-- The nodes and the leases of `NodeStore` in shiroe/nodes/store.py. A time is a number of seconds, and an
-- operation takes the readings of the clock in their order; a new lease id comes from the factory, with the
-- test of its pattern; the pattern of a node id that a caller gives is not checked, and `ttl_s` is not negative.
-- What is left out of a node and a lease decides nothing; the event log takes every event.
use shiroe.Prelude.{
  ℕ, ◌+◌, String, Bool, true, false, ◌&&◌, ◌||◌, Option, none, some, List, [], ◌∷◌, ◌++◌, ◌==◌,
  string_eq, leb,
}
use shiroe.Work.Tables.{change_where}

-- `_ROLES`
pub data Role : Type 0 where
  controller worker : Role

pub record NodeRecord : Type 0 where
  pub id : String
  pub name : String
  pub role : Role
  pub trusted : Bool

-- `_LEASE_STATES`
pub data LeaseState : Type 0 where
  active completed failed released expired : LeaseState

pub record LeaseRecord : Type 0 where
  pub id : String
  pub graph_id : String
  pub work_node_id : String
  pub node_id : String
  pub state : LeaseState
  pub acquired_at : ℕ
  pub expires_at : ℕ
  pub released_at : Option ℕ

pub record NodeState : Type 0 where
  pub nodes : List NodeRecord
  pub leases : List LeaseRecord
  -- the types of the events, each with the id of its node or lease
  pub events : List (String × String)

pub data NodeFault : Type 0 where
  no_such_id bad_lease_id lease_exists : String → NodeFault
  not_trusted_worker : NodeFault
  not_active : String → LeaseState → NodeFault

-- what an operation gives or raises, beside the state
pub data Answer {ℓ} (T : Type ℓ) : Type ℓ where
  gives : T → Answer T
  raises : NodeFault → Answer T

unfoldable pub get_node : String → List NodeRecord → Option NodeRecord
get_node id [] = none
get_node id (n ∷ nodes) =
    let rest = get_node id nodes in elim (n.id == id) [ true ↦ some n | false ↦ rest ]

unfoldable pub get_lease : String → List LeaseRecord → Option LeaseRecord
get_lease id [] = none
get_lease id (l ∷ leases) =
    let rest = get_lease id leases in elim (l.id == id) [ true ↦ some l | false ↦ rest ]

abbrev pub is_active : LeaseState → Bool
is_active LeaseState.active = true
is_active other = false

abbrev pub is_trusted_worker : NodeRecord → Bool
is_trusted_worker n = elim n.role [ controller ↦ false | worker ↦ n.trusted ]

-- `state='active' AND expires_at <= ?`
abbrev pub is_over : ℕ → LeaseRecord → Bool
is_over now l = is_active l.state && leb l.expires_at now

-- `expire_active_leases`
unfoldable pub expire_active_leases : (now : ℕ) → List LeaseRecord → List LeaseRecord
unfolding change_where
expire_active_leases now leases =
    change_where (is_over now)
      (λ l. record l { state = LeaseState.expired; released_at = some now }) leases

-- the primary key and `uq_active_work_node_lease`: an insert that one of them refuses
unfoldable pub is_taken : LeaseRecord → List LeaseRecord → Bool
is_taken new [] = false
is_taken new (l ∷ leases) =
    (l.id == new.id)
    || ((is_active l.state && (l.work_node_id == new.work_node_id)) || is_taken new leases)

-- `_emit`
abbrev pub emit : String → String → NodeState → NodeState
emit event_type id s = record s { events = s.events ++ (event_type, id) ∷ [] }

-- `trust_node`
unfoldable pub trust_node :
    NodeState → (node_id : String) → (trusted : Bool) → NodeState × Answer NodeRecord
unfolding change_where get_node
trust_node s node_id trusted = elim (get_node node_id s.nodes) [
  | none ↦ (s, raises (no_such_id node_id))
  | some n ↦ (
    emit "node.trust_changed" node_id (record s {
      nodes = change_where (λ m. m.id == node_id) (λ m. record m { trusted = trusted }) s.nodes;
    }),
    gives (record n { trusted = trusted }),
  )
]

abbrev pub new_lease :
    (graph_id work_node_id node_id : String)
    → (ttl_s : ℕ) → (lease_id : String) → (at_now at_end : ℕ) → LeaseRecord
new_lease graph_id work_node_id node_id ttl_s lease_id at_now at_end = record {
  id = lease_id;
  graph_id = graph_id;
  work_node_id = work_node_id;
  node_id = node_id;
  state = LeaseState.active;
  acquired_at = at_now;
  expires_at = at_end + ttl_s;
  released_at = none;
}

module _ (is_lease_id : String → Bool) where
  -- `acquire_lease`; the leases that are over expire also where the insert is refused
  unfoldable pub acquire_lease :
      NodeState
      → (graph_id work_node_id node_id : String) → (ttl_s : ℕ) → (lease_id : String)
      → (at_expiry at_now at_end : ℕ) → NodeState × Answer LeaseRecord
  unfolding get_node expire_active_leases is_taken
  acquire_lease s graph_id work_node_id node_id ttl_s lease_id at_expiry at_now at_end =
      elim (get_node node_id s.nodes) [
        | none ↦ (s, raises (no_such_id node_id))
        | some node ↦ elim (is_trusted_worker node) [
          | false ↦ (s, raises not_trusted_worker)
          | true ↦
              let t = record s { leases = expire_active_leases at_expiry s.leases } in
              elim (is_lease_id lease_id) [
                | false ↦ (t, raises (bad_lease_id lease_id))
                | true ↦
                    let new =
                      new_lease graph_id work_node_id node_id ttl_s lease_id at_now at_end in
                    elim (is_taken new t.leases) [
                      | true ↦ (t, raises (lease_exists work_node_id))
                      | false ↦ (
                        emit "node.lease_acquired" lease_id
                            (record t { leases = t.leases ++ new ∷ [] }),
                        gives new,
                      )
                    ]
              ]
        ]
      ]

-- the targets of `_terminal_lease`
pub data Terminal : Type 0 where
  completes fails releases : Terminal

abbrev pub target_state : Terminal → LeaseState
target_state completes = LeaseState.completed
target_state fails = LeaseState.failed
target_state releases = LeaseState.released

-- `current.state == target_state`
abbrev pub is_target : Terminal → LeaseState → Bool
is_target completes LeaseState.completed = true
is_target fails LeaseState.failed = true
is_target releases LeaseState.released = true
is_target target other = false

abbrev pub terminal_event : Terminal → String
terminal_event completes = "node.lease_completed"
terminal_event fails = "node.lease_failed"
terminal_event releases = "node.lease_failed"

-- `_terminal_lease`
unfoldable pub terminal_lease :
    NodeState → (lease_id : String) → Terminal → (now : ℕ) → NodeState × Answer LeaseRecord
unfolding get_lease change_where
terminal_lease s lease_id target now = elim (get_lease lease_id s.leases) [
  | none ↦ (s, raises (no_such_id lease_id))
  | some current ↦ elim (is_target target current.state) [
    | true ↦ (s, gives current)
    | false ↦ elim (is_active current.state) [
      | false ↦ (s, raises (not_active lease_id current.state))
      | true ↦
          let ended =
            λ (l : LeaseRecord). record l { state = target_state target; released_at = some now } in
          (
            emit (terminal_event target) lease_id
                (record s { leases = change_where (λ l. l.id == lease_id) ended s.leases }),
            gives (ended current),
          )
    ]
  ]
]
