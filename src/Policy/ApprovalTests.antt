-- ===== src/Policy/ApprovalTests.antt =====
-- A request for a push that a human approves, under a digest that reads a field of the scope.
use mathlib.Core.List.{Memᴰ}
use mathlib.Core.List.Memᴰ
use shiroe.Prelude.{
  String, true, Option, none, some, List, [], ◌∷◌, ◌≡◌, ◌≢◌, refl, ◌⊎◌, ⊎_elim, ◌==◌, string_eq,
  arith, if◌then◌else◌, contains, sym, ◌∙◌,
}
use shiroe.Prelude.Json.{null, str, Fields, end, field, get_field}
use shiroe.Storage.Envelope.{scrub_fields}
use shiroe.Work.Schema.{has_text}
use shiroe.Policy.Schema.{fs_write, allow, require_approval, Action, PolicyLayer}
use shiroe.Policy.Autonomy.{suggest, autonomy_gate}
use shiroe.Policy.Precedence.{resolve, layer_named, target_allowed}
use shiroe.Policy.Engine.{kind_value, evaluate}
use shiroe.Policy.Approvals.{action, approved, stale, status_eq, ApprovalRequest, decided, staled}
use shiroe.Policy.ApprovalService.{
  ApprovalState, replay, Asked, answer, refuse, foreign_key, asked_request, emit, find_row, matches,
  ask, decide_human, assert_current,
}
use shiroe.Policy.ApprovalService.Replay.{replay-Reachable}
use shiroe.Policy.ApprovalService.Human.{
  empty, asks, decides, creates, Reachable, begins, goes_on, approved-Reachable,
}
use shiroe.Policy.ApprovalService.Current.{HasTexts, assert_current-stored, assert_current-ask}
use shiroe.Policy.Service.{AuthorizationResult, scope_of, requested_of, authorize}
use shiroe.Policy.Service.Authorized.{IsChoice, IsKeyed, authorize-allow}

abbrev digest_of : Fields → String
digest_of scope = elim (get_field "target" scope) [ some (str text) ↦ text | _ ↦ "" ]

abbrev scrub : String → String
scrub text = if text == "/home/me/notes" then "[path]" else text

abbrev first_of : List ApprovalRequest → Option ApprovalRequest
first_of [] = none
first_of (row ∷ rows) = some row

abbrev asked : Asked
asked = record {
  id = "apr_1";
  approval_type = action;
  requested_action = "notes";
  scope = field "target" (str "notes") end;
  reason = "a change";
  risk = "medium";
  graph_id = some "g1";
  node_id = some "n1";
  action_kind = some "fs.write";
  options = [];
  evidence_refs = [];
  now = "2026-01-05T10:00:00";
}

abbrev private_path : Asked
private_path = record asked { scope = field "target" (str "/home/me/notes") end }

abbrev one : ApprovalRequest
one = record {
  id = "apr_1";
  graph_id = some "g1";
  node_id = some "n1";
  approval_type = action;
  action_kind = some "fs.write";
  requested_action = "notes";
  scope = field "target" (str "notes") end;
  digest = "notes";
  reason = "a change";
  options = [];
  evidence_refs = [];
  risk = "medium";
  status = approved;
  requested_at = "2026-01-05T10:00:00";
  decided_at = some "2026-01-05T11:00:00";
  decided_by = some "human";
  decision_reason = some "fine";
}

-- after a graph with a node is created
abbrev with_graph : ApprovalState
with_graph = record empty { graph_ids = "g1" ∷ []; node_ids = "n1" ∷ [] }

abbrev asked_state : ApprovalState
asked_state = (ask digest_of scrub with_graph asked).0

abbrev approved_state : ApprovalState
approved_state =
    (decide_human digest_of scrub asked_state "apr_1" approved "human" "fine" none
      "2026-01-05T11:00:00").0

approved-rows : approved_state.rows ≡ one ∷ []
unfolding ask decide_human has_text get_field scrub_fields contains
approved-rows = refl

abbrev approved_state-Reachable : Reachable digest_of scrub approved_state
approved_state-Reachable =
    goes_on asked_state approved_state
      (goes_on with_graph asked_state
        (goes_on empty with_graph begins (creates empty ("g1" ∷ []) ("n1" ∷ [])))
        (asks with_graph asked))
      (decides asked_state "apr_1" approved "human" "fine" none "2026-01-05T11:00:00")

one-mem : Memᴰ one approved_state.rows
one-mem = rw approved-rows (Memᴰ.head refl)

approved-Reachable_example :
    (reason decided_at : String) × Memᴰ
      (decided "apr_1" approved "human" reason decided_at)
      approved_state.log
approved-Reachable_example =
    approved-Reachable digest_of scrub approved_state approved_state-Reachable one one-mem refl

first_of-IsChoice : IsChoice first_of
first_of-IsChoice [] row h = cc
first_of-IsChoice (r ∷ rows) row h = Memᴰ.head (ground arith)

only : (row : ApprovalRequest) → Memᴰ row (one ∷ []) → row ≡ one
only row m = ⊎_elim (λ p. p) (λ n. absurd (Memᴰ.not-nil n)) (Memᴰ.cases_cons m)

abbrev one_state : ApprovalState
one_state = record { rows = one ∷ []; log = []; graph_ids = []; node_ids = [] }

one-IsKeyed : IsKeyed one_state.rows
one-IsKeyed a b m n p = only a m ∙ sym (only b n)

abbrev write_notes : Action
write_notes = record { kind = fs_write; target = "notes" }

abbrev writes_allowed : List PolicyLayer
writes_allowed =
    record {
      name = "project-defaults";
      denies = [];
      allows = fs_write ∷ [];
      fs_write_scopes = [];
      fs_read_scopes = [];
      network_hosts = [];
    }
    ∷ []

abbrev allowed : AuthorizationResult
allowed = record {
  verdict = allow;
  reason = "human-approved: fine";
  deciding_layer = "project-defaults";
  approval_id = some "apr_1";
}

write_notes-authorize :
    (authorize digest_of scrub first_of one_state write_notes null writes_allowed suggest
      (some "g1")
      (some "n1")
      end
      "apr_2"
      "2026-01-06T10:00:00").1
    ≡ answer allowed
unfolding authorize contains has_text get_field resolve layer_named target_allowed autonomy_gate
write_notes-authorize = refl

authorize-allow_example :
    ((evaluate write_notes writes_allowed suggest).verdict ≡ allow)
    ⊎ (((evaluate write_notes writes_allowed suggest).verdict ≡ require_approval)
        × (row : ApprovalRequest) × Memᴰ row one_state.rows
        × (row.status ≡ approved)
        × (matches
              (some "g1")
              (some "n1")
              (some (kind_value fs_write))
              (requested_of write_notes)
              (digest_of (scope_of write_notes null end))
              row
            ≡ true))
authorize-allow_example =
    authorize-allow digest_of scrub first_of one_state write_notes null writes_allowed suggest
      (some "g1") (some "n1") end "apr_2" "2026-01-06T10:00:00" allowed first_of-IsChoice
      one-IsKeyed write_notes-authorize refl

one-found : find_row "apr_1" one_state.rows ≡ some one
unfolding find_row
one-found = refl

one-HasTexts : HasTexts digest_of scrub one
unfolding has_text
one-HasTexts = (refl, refl, refl)

assert_current-stored_example :
    let now = record one { digest = digest_of one.scope } in
    ((digest_of (field "target" (str "other") end) ≡ digest_of one.scope)
      × (assert_current digest_of scrub one_state "apr_1" (field "target" (str "other") end)
          ≡ (one_state, answer now)))
    ⊎ ((digest_of (field "target" (str "other") end) ≢ digest_of one.scope)
        × (assert_current digest_of scrub one_state "apr_1" (field "target" (str "other") end) ≡ (
          emit digest_of scrub one_state (staled "apr_1"),
          answer (record now { status = stale }),
        ))
        × (find_row "apr_1" (emit digest_of scrub one_state (staled "apr_1")).rows
            ≡ some (record one { status = stale })))
assert_current-stored_example =
    assert_current-stored digest_of scrub one_state "apr_1" (field "target" (str "other") end) one
      refl one-found one-HasTexts

asked-HasTexts : HasTexts digest_of scrub (asked_request private_path)
unfolding has_text asked_request
asked-HasTexts = (refl, refl, refl)

notes-has_text : has_text "notes" ≡ true
unfolding has_text
notes-has_text = refl

reason-has_text : has_text "a change" ≡ true
unfolding has_text
reason-has_text = refl

path-scrub_fields : digest_of private_path.scope ≢ digest_of (scrub_fields scrub private_path.scope)
unfolding scrub_fields get_field
path-scrub_fields h = cc

path-written : (ask digest_of scrub with_graph private_path).1 ≢ refuse foreign_key
unfolding ask has_text scrub_fields get_field contains
path-written h = cc

asked-written : (ask digest_of scrub with_graph asked).1 ≢ refuse foreign_key
unfolding ask has_text scrub_fields get_field contains
asked-written h = cc

assert_current-ask_example :
    (r : ApprovalRequest) × ((assert_current digest_of scrub
        (ask digest_of scrub with_graph private_path).0
        "apr_1"
        private_path.scope).1
      ≡ answer r)
    × (r.status ≡ stale)
assert_current-ask_example =
    assert_current-ask digest_of scrub with_graph private_path refl asked-HasTexts notes-has_text
      reason-has_text path-scrub_fields path-written

replay-Reachable_example : replay [] approved_state.log ≡ approved_state.rows
replay-Reachable_example =
    replay-Reachable digest_of scrub approved_state approved_state-Reachable
      (((tt, tt), asked-written), tt)
