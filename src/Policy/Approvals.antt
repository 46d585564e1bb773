-- ===== src/Policy/Approvals.antt =====
-- The approval requests of shiroe/policy/approvals.py and the rows that their events are folded into,
-- `_apply_approval` of shiroe/storage/projections.py. The words of the two enums stand for themselves.
pub mod Events
use shiroe.Prelude.{
  ℕ, String, Bool, true, false, Option, none, some, List, [], ◌∷◌, map, ◌≡◌, refl, Equatable,
  enum_eq, nth_or, ◌==◌, string_eq, if◌then◌else◌,
}
use shiroe.Prelude.Json.{Fields}
use shiroe.Storage.Envelope.{scrub_fields}

pub data ApprovalType : Type 0 where
  action strategic exception capability : ApprovalType

pub data ApprovalStatus : Type 0 where
  pending approved rejected revise deferred stale : ApprovalStatus

abbrev pub all_statuses : List ApprovalStatus
all_statuses = pending ∷ approved ∷ rejected ∷ revise ∷ deferred ∷ stale ∷ []

abbrev pub status_code : ApprovalStatus → ℕ
status_code pending = 0
status_code approved = 1
status_code rejected = 2
status_code revise = 3
status_code deferred = 4
status_code stale = 5

pub status_code-back : (a d : ApprovalStatus) → nth_or all_statuses (status_code a) d ≡ a
unfolding nth_or
status_code-back pending d = refl
status_code-back approved d = refl
status_code-back rejected d = refl
status_code-back revise d = refl
status_code-back deferred d = refl
status_code-back stale d = refl

instance abbrev pub status_eq : Equatable ApprovalStatus
status_eq = enum_eq all_statuses status_code status_code-back

-- A request, and its row: there `digest` is the column `scope_digest`.
pub record ApprovalRequest : Type 0 where
  pub id : String
  pub graph_id : Option String
  pub node_id : Option String
  pub approval_type : ApprovalType
  pub action_kind : Option String
  pub requested_action : String
  pub scope : Fields
  pub digest : String
  pub reason : String
  pub options : List String
  pub evidence_refs : List String
  pub risk : String
  pub status : ApprovalStatus
  pub requested_at : String
  pub decided_at : Option String
  pub decided_by : Option String
  pub decision_reason : Option String

pub data ApprovalEvent : Type 0 where
  requested : ApprovalRequest → ApprovalEvent
  decided :
      (id : String) (decision : ApprovalStatus) (actor reason decided_at : String) → ApprovalEvent
  staled : (id : String) → ApprovalEvent

scrub_option : (String → String) → Option String → Option String
scrub_option scrub none = none
scrub_option scrub (some s) = some (scrub s)

-- What the log makes of the texts of an event's payload.
unfoldable pub scrub_event : (String → String) → ApprovalEvent → ApprovalEvent
unfolding scrub_option
scrub_event scrub (requested r) = requested (record r {
  id = scrub r.id;
  graph_id = scrub_option scrub r.graph_id;
  node_id = scrub_option scrub r.node_id;
  action_kind = scrub_option scrub r.action_kind;
  requested_action = scrub r.requested_action;
  scope = scrub_fields scrub r.scope;
  digest = scrub r.digest;
  reason = scrub r.reason;
  options = map scrub r.options;
  evidence_refs = map scrub r.evidence_refs;
  risk = scrub r.risk;
  requested_at = scrub r.requested_at;
})
scrub_event scrub (decided id decision actor reason decided_at) =
    decided (scrub id) decision (scrub actor) (scrub reason) (scrub decided_at)
scrub_event scrub (staled id) = staled (scrub id)

-- `INSERT OR REPLACE INTO approval_requests`, which leaves the columns of the decision empty
unfoldable pub insert_or_replace : List ApprovalRequest → ApprovalRequest → List ApprovalRequest
insert_or_replace [] r =
    record r { decided_at = none; decided_by = none; decision_reason = none } ∷ []
insert_or_replace (row ∷ rows) r =
    let rest = insert_or_replace rows r in if row.id == r.id then rest else row ∷ rest

-- `UPDATE approval_requests SET ... WHERE id=?`
unfoldable pub update_where :
    String → (ApprovalRequest → ApprovalRequest) → List ApprovalRequest → List ApprovalRequest
update_where id change [] = []
update_where id change (row ∷ rows) =
    let rest = update_where id change rows in if row.id == id then change row ∷ rest else row ∷ rest

-- `_apply_approval`
unfoldable pub apply_approval : ApprovalEvent → List ApprovalRequest → List ApprovalRequest
unfolding insert_or_replace update_where
apply_approval (requested r) rows = insert_or_replace rows r
apply_approval (decided id decision actor reason decided_at) rows =
    update_where id
      (λ row. record row {
        status = decision;
        decided_at = some decided_at;
        decided_by = some actor;
        decision_reason = some reason;
      })
      rows
apply_approval (staled id) rows = update_where id (λ row. record row { status = stale }) rows
