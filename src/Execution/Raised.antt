-- ===== src/Execution/Raised.antt =====
-- An invocation that raises.
use shiroe.Prelude.{String, none, some, List, [], ◌∷◌, ◌≡◌, refl, ap, arith, string_eq, ==_refl}
use shiroe.Work.Schema.{WorkNode}
use shiroe.Work.Tables.{AttemptRow, put_attempt, apply_work}
use shiroe.Work.Store.{WorkState, emit_work}
use shiroe.Execution.Services.{Services, raised}
use shiroe.Execution.Attempts.{find_attempt, record_attempt}
use shiroe.Execution.Tried.{RunState, caught}
use shiroe.Execution.Attempt.{judge, invoke_node}

find_attempt-put_attempt :
    (a : AttemptRow) (rows : List AttemptRow)
    → find_attempt a.id rows ≡ none
    → find_attempt a.id (put_attempt a rows) ≡ some a
unfolding find_attempt put_attempt
find_attempt-put_attempt a [] h = ground (arith, ==_refl a.id)
find_attempt-put_attempt a (b ∷ rows) h = ground (arith, find_attempt-put_attempt a rows)

record_attempt-state :
    (s : WorkState) (id graph_id node_id capability_id state : String)
    → find_attempt id s.tables.attempts ≡ none
    → (row : AttemptRow) × (find_attempt id
          (record_attempt s id graph_id node_id capability_id state).tables.attempts
        ≡ some row)
      × (row.state ≡ state)
unfolding record_attempt emit_work apply_work
record_attempt-state s id graph_id node_id capability_id state h =
    (_, find_attempt-put_attempt _ s.tables.attempts h, refl)

-- Where an invocation raises an error that the loop catches, the attempt that was recorded before it under
-- a new id is never finished: its row is in the state "running", and nothing is charged.
pub invoke_node-raised :
    {World : Type 0} (services : Services World) (s : RunState World) (graph_id : String)
    (node : WorkNode) (capability_id id message : String) (x y : World)
    → services.new_id s.world ≡ (x, id)
    → find_attempt id s.work.tables.attempts ≡ none
    → services.invoke x graph_id node capability_id ≡ (y, raised message)
    → (t : RunState World) × (invoke_node services s graph_id node capability_id ≡ caught t message)
      × (t.budget ≡ s.budget)
      × ((row : AttemptRow) × (find_attempt id t.work.tables.attempts ≡ some row)
          × (row.state ≡ "running"))
unfolding invoke_node judge
invoke_node-raised services s graph_id node capability_id id message x y n f r =
    let w = record_attempt s.work id graph_id node.id capability_id "running" in
    let started = record s { work = w; world = x } in
    (
      record s { work = w; world = y },
      rw (n, invoke_node) (ap (judge services started graph_id node id) r),
      refl,
      record_attempt-state s.work id graph_id node.id capability_id "running" f,
    )
