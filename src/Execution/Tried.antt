-- ===== src/Execution/Tried.antt =====
-- What comes of an attempt in shiroe/execution/supervisor.py, with the errors that its `try` catches.
use Prim.Native.String.{◌++◌ as str_append}
use shiroe.Prelude.{ℕ, String, Option, List, string_eq}
use shiroe.Prelude.Json.{Fields}
use shiroe.Work.Schema.{GraphStatus, NodeStatus}
use shiroe.Work.Store.{
  WorkState, WorkFault, concurrent_update, Outcome, did, raises, set_graph_status, set_node_status,
}
use shiroe.Execution.Budget.{BudgetTracker}
use shiroe.Execution.Attempts.{as_is, finish_attempt}

pub record RunState (World : Type 0) : Type 0 where
  pub work : WorkState
  pub budget : BudgetTracker
  pub world : World

-- why a run stops short, and the approvals that it waits for
pub record Stop : Type 0 where
  pub status : GraphStatus
  pub reason : String
  pub pending_approvals : List String

-- What comes of an attempt: the node is completed; the run returns; an error that the loop catches, with
-- its text; or one that it does not catch.
pub data Tried (World : Type 0) : Type 0 where
  done : RunState World → Tried World
  returns : RunState World → Stop → Tried World
  caught : RunState World → String → Tried World
  uncaught : WorkFault → Tried World

module _ {World : Type 0} where
  abbrev pub at_work : RunState World → WorkState → RunState World
  at_work s w = record s { work = w }

  abbrev pub in_world : RunState World → World → RunState World
  in_world s x = record s { world = x }

  -- an error of the store inside the `try`
  unfoldable pub caught_fault : RunState World → WorkFault → Tried World
  caught_fault s (concurrent_update id) = caught s (str_append "stale work node version: " id)
  caught_fault s f = uncaught f

  unfoldable pub then_work :
      RunState World → Outcome WorkState → (RunState World → Tried World) → Tried World
  unfolding caught_fault
  then_work s (did w) next = next (at_work s w)
  then_work s (raises f) next = caught_fault s f

  -- `set_node_status(..., "blocked")`, `set_graph_status(..., "paused")` and the return
  unfoldable pub pause_try :
      RunState World → (graph_id node_id : String) → ℕ → String → List String → Tried World
  unfolding then_work set_node_status set_graph_status
  pause_try s graph_id node_id version reason pending =
      then_work s (set_node_status as_is s.work node_id NodeStatus.blocked version) (λ t.
        then_work t (set_graph_status as_is t.work graph_id GraphStatus.paused) (λ u.
          returns u
            (record { status = GraphStatus.paused; reason = reason; pending_approvals = pending })))

  -- `_finish_attempt(..., "failed")` and the RuntimeError
  unfoldable pub fail_attempt :
      RunState World
      → (attempt_id : String) → Option String
      → Fields
      → (message : String) → Tried World
  unfolding then_work finish_attempt
  fail_attempt s attempt_id error usage message =
      then_work s (finish_attempt s.work attempt_id "failed" error usage) (λ t. caught t message)
