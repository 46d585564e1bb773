-- ===== src/Execution/Attempts.antt =====
-- The rows of the attempts: `_attempt_count`, `_next_attempt`, `_record_attempt` and `_finish_attempt` of
-- shiroe/execution/supervisor.py. The log keeps the texts of the work events here,
-- and the foreign keys of an attempt hold: the supervisor has read its graph and its node before.
use shiroe.Prelude.{
  ℕ, suc, String, Option, none, some, List, [], ◌∷◌, ltb, ◌==◌, string_eq, if◌then◌else◌,
}
use shiroe.Prelude.Json.{Fields, end}
use shiroe.Work.Tables.{AttemptRow, WorkEvent, attempt}
use shiroe.Work.Store.{WorkState, no_such_id, Outcome, did, raises, emit_work}

abbrev pub as_is : WorkEvent → WorkEvent
as_is event = event

-- `_attempt_count`
unfoldable pub attempt_count : String → List AttemptRow → ℕ
attempt_count node_id [] = 0
attempt_count node_id (a ∷ rows) =
    let rest = attempt_count node_id rows in if a.node_id == node_id then suc rest else rest

-- `COALESCE(MAX(attempt), 0)` over the attempts of a node
unfoldable pub last_attempt : String → List AttemptRow → ℕ
last_attempt node_id [] = 0
last_attempt node_id (a ∷ rows) =
    let rest = last_attempt node_id rows in
    if a.node_id == node_id then (if ltb rest a.attempt then a.attempt else rest) else rest

unfoldable pub find_attempt : String → List AttemptRow → Option AttemptRow
find_attempt id [] = none
find_attempt id (a ∷ rows) = let rest = find_attempt id rows in if a.id == id then some a else rest

-- `_record_attempt`
unfoldable pub record_attempt :
    WorkState → (attempt_id graph_id node_id capability_id state : String) → WorkState
unfolding last_attempt emit_work
record_attempt s attempt_id graph_id node_id capability_id state = emit_work as_is s (
    attempt "attempt.started" (record {
      id = attempt_id;
      graph_id = graph_id;
      node_id = node_id;
      attempt = suc (last_attempt node_id s.tables.attempts);
      capability_id = capability_id;
      state = state;
      error = none;
      usage = end;
    }))

-- `_finish_attempt`
unfoldable pub finish_attempt :
    WorkState → (attempt_id state : String) → Option String → Fields → Outcome WorkState
unfolding find_attempt emit_work
finish_attempt s attempt_id state error usage = elim (find_attempt attempt_id s.tables.attempts) [
  | none ↦ raises (no_such_id attempt_id)
  | some row ↦
      let event_type = if state == "completed" then "attempt.completed" else "attempt.failed" in
      did (
        emit_work as_is s
          (attempt event_type (record row { state = state; error = error; usage = usage })))
]
