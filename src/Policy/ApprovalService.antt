-- ===== src/Policy/ApprovalService.antt =====
-- shiroe/policy/approval_service.py. Each operation runs in one process between commits. The digest of a
-- scope, what the log scrubs, and the row that the database puts first among the matching ones (ties of
-- `requested_at` are its choice) are parameters; the log takes every event here.
pub mod Human
pub mod Current
pub mod Replay
use shiroe.Prelude.{
  String, Bool, true, false, ◌&&◌, not, Option, none, some, List, [], ◌∷◌, ◌++◌, contains, ◌==◌,
  string_eq, if◌then◌else◌,
}
use shiroe.Prelude.Json.{Json, Fields, get_field, truthy}
use shiroe.Work.Schema.{has_text}
use shiroe.Policy.Approvals.{
  ApprovalType, capability, ApprovalStatus, pending, approved, stale, status_eq, ApprovalRequest,
  ApprovalEvent, requested, decided, staled, scrub_event, apply_approval,
}

-- the table `approval_requests`, the approval events of the log, and the ids that the tables of the graphs
-- and of the nodes hold, to which the foreign keys of a request refer
pub record ApprovalState : Type 0 where
  pub rows : List ApprovalRequest
  pub log : List ApprovalEvent
  pub graph_ids : List String
  pub node_ids : List String

pub data ApprovalError : Type 0 where
  empty_field unknown_id : String → ApprovalError
  not_human : ApprovalError
  not_a_decision : ApprovalStatus → ApprovalError
  foreign_key : ApprovalError

pub data Answer {ℓ} (T : Type ℓ) : Type ℓ where
  answer : T → Answer T
  refuse : ApprovalError → Answer T

-- What a caller asks for, with the id and the time.
pub record Asked : Type 0 where
  pub id : String
  pub approval_type : ApprovalType
  pub requested_action : String
  pub scope : Fields
  pub reason : String
  pub risk : String
  pub graph_id : Option String
  pub node_id : Option String
  pub action_kind : Option String
  pub options : List String
  pub evidence_refs : List String
  pub now : String

-- the request that `request` builds, before its checks
unfoldable pub asked_request : Asked → ApprovalRequest
asked_request asked = record {
  id = asked.id;
  graph_id = asked.graph_id;
  node_id = asked.node_id;
  approval_type = asked.approval_type;
  action_kind = asked.action_kind;
  requested_action = asked.requested_action;
  scope = asked.scope;
  digest = "";
  reason = asked.reason;
  options = asked.options;
  evidence_refs = asked.evidence_refs;
  risk = asked.risk;
  status = pending;
  requested_at = asked.now;
  decided_at = none;
  decided_by = none;
  decision_reason = none;
}

-- What `WHERE` compares: `COALESCE(column, '')`.
or_empty : Option String → String
or_empty none = ""
or_empty (some s) = s

unfoldable pub find_row : String → List ApprovalRequest → Option ApprovalRequest
find_row id [] = none
find_row id (row ∷ rows) = let rest = find_row id rows in if row.id == id then some row else rest

-- `actor != "human" or (actor_kind is not None and actor_kind != "human")`, negated
unfoldable pub is_human : String → Option String → Bool
is_human actor none = actor == "human"
is_human actor (some kind) = (actor == "human") && (kind == "human")

-- `req.scope.get("capability_id")`, where it counts as true
unfoldable pub capability_of : ApprovalRequest → Option Json
unfolding get_field truthy
capability_of request = elim (get_field "capability_id" request.scope) [
  | some id ↦ if truthy id then some id else none
  | none ↦ none
]

-- the conditions of `find_latest_matching`
unfoldable pub matches :
    (graph_id node_id action_kind : Option String) (requested_action digest : String)
    → ApprovalRequest
    → Bool
unfolding or_empty
matches graph_id node_id action_kind requested_action digest row =
    (or_empty row.graph_id == or_empty graph_id)
    && (or_empty row.node_id == or_empty node_id)
    && (or_empty row.action_kind == or_empty action_kind)
    && (row.requested_action == requested_action)
    && (row.digest == digest)

-- a foreign key, which a missing value satisfies
unfoldable pub refers : List String → Option String → Bool
refers ids none = true
refers ids (some id) = contains ids id

-- the foreign keys of the row that an event inserts
unfoldable pub event_refers : ApprovalState → ApprovalEvent → Bool
unfolding refers
event_refers s (requested r) = refers s.graph_ids r.graph_id && refers s.node_ids r.node_id
event_refers s (decided id decision actor reason at) = true
event_refers s (staled id) = true

unfoldable pub keep : (ApprovalRequest → Bool) → List ApprovalRequest → List ApprovalRequest
keep test [] = []
keep test (row ∷ rows) = let rest = keep test rows in if test row then row ∷ rest else rest

module _ (digest_of : Fields → String) (scrub : String → String) where
  -- `ApprovalRequest.__post_init__`
  unfoldable pub checked : ApprovalRequest → Answer ApprovalRequest
  checked r =
      if has_text r.id
      then if has_text r.requested_action
        then if has_text r.reason
          then answer (record r { digest = digest_of r.scope })
          else refuse (empty_field "reason")
        else refuse (empty_field "requested_action")
      else refuse (empty_field "approval id")

  -- `events.append`, `apply_event` and the commit
  unfoldable pub emit : ApprovalState → ApprovalEvent → ApprovalState
  unfolding scrub_event apply_approval
  emit s event = record s {
    rows = apply_approval (scrub_event scrub event) s.rows;
    log = s.log ++ scrub_event scrub event ∷ [];
  }

  -- `events.append` alone, where a foreign key refuses the row
  unfoldable pub log_only : ApprovalState → ApprovalEvent → ApprovalState
  unfolding scrub_event
  log_only s event = record s { log = s.log ++ scrub_event scrub event ∷ [] }

  -- `get`
  unfoldable pub get_request : ApprovalState → String → Answer ApprovalRequest
  unfolding checked find_row
  get_request s id = elim (find_row id s.rows) [
    | none ↦ refuse (unknown_id id)
    | some row ↦ checked row
  ]

  -- `request`
  unfoldable pub ask : ApprovalState → Asked → ApprovalState × Answer ApprovalRequest
  unfolding checked emit log_only asked_request event_refers scrub_event
  ask s asked = elim (checked (asked_request asked)) [
    | refuse e ↦ (s, refuse e)
    | answer r ↦
        if event_refers s (scrub_event scrub (requested r))
        then (emit s (requested r), answer r)
        else (log_only s (requested r), refuse foreign_key)
  ]

  -- The capability that a decision approves as well, by `CapabilityStore.set_lifecycle`.
  unfoldable pub follow_up : ApprovalRequest → ApprovalStatus → Option Json
  unfolding capability_of
  follow_up request status = elim request.approval_type [
    | capability ↦ if status == approved then capability_of request else none
    | _ ↦ none
  ]

  -- `decide_human`
  unfoldable pub decide_human :
      ApprovalState
      → (id : String) (decision : ApprovalStatus) (actor reason : String)
        (actor_kind : Option String) (now : String)
      → ApprovalState × Answer (ApprovalRequest × Option Json)
  unfolding is_human get_request emit follow_up
  decide_human s id decision actor reason actor_kind now =
      let s' = emit s (decided id decision actor reason now) in
      if is_human actor actor_kind
      then if contains (pending ∷ stale ∷ []) decision
        then (s, refuse (not_a_decision decision))
        else elim (get_request s id) [
          | refuse e ↦ (s, refuse e)
          | answer before ↦ elim (get_request s' id) [
            | refuse e ↦ (s', refuse e)
            | answer after ↦ (s', answer (after, follow_up after decision))
          ]
        ]
      else (s, refuse not_human)

  -- `assert_current`
  unfoldable pub assert_current :
      ApprovalState
      → (id : String) (current_scope : Fields) → ApprovalState × Answer ApprovalRequest
  unfolding get_request emit
  assert_current s id current_scope = elim (get_request s id) [
    | refuse e ↦ (s, refuse e)
    | answer r ↦
        if digest_of current_scope == r.digest
        then (s, answer r)
        else (emit s (staled id), get_request (emit s (staled id)) id)
  ]

  -- `find_latest_matching`
  unfoldable pub find_latest_matching :
      (List ApprovalRequest → Option ApprovalRequest)
      → ApprovalState
      → (graph_id node_id action_kind : Option String) (requested_action : String) (scope : Fields)
      → Answer (Option ApprovalRequest)
  unfolding keep matches get_request
  find_latest_matching first_of s graph_id node_id action_kind requested_action scope =
      elim (first_of
        (keep (matches graph_id node_id action_kind requested_action (digest_of scope)) s.rows)) [
          | none ↦ answer none
          | some row ↦ elim (get_request s row.id) [
            | refuse e ↦ refuse e
            | answer r ↦ answer (some r)
          ]
        ]

-- the fold of `replay_into` over the approval events, from the emptied table, where the foreign keys hold: the
-- graphs and nodes of the earlier events are there
unfoldable pub replay : List ApprovalRequest → List ApprovalEvent → List ApprovalRequest
unfolding apply_approval
replay rows [] = rows
replay rows (event ∷ events) = replay (apply_approval event rows) events
