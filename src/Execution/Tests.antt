-- ===== src/Execution/Tests.antt =====
-- A run of a small graph, with services that answer what they are asked.
use shiroe.Prelude.{
  ℕ, suc, ◌≤◌, String, Bool, true, false, Option, none, some, List, [], ◌∷◌, ◌≡◌, refl, ◌↔◌, ◌⊎◌,
  contains,
}
use shiroe.Prelude.Json.{num, str, end, field}
use shiroe.Policy.Schema.{allow}
use shiroe.Policy.Approvals.{ApprovalStatus}
use shiroe.Work.Schema.{task, GraphStatus, NodeStatus, WorkNode, WorkGraph}
use shiroe.Work.Readiness.{store_ready_node_ids}
use shiroe.Work.Tables.{AttemptRow, NodeRow, new_row}
use shiroe.Work.Store.{WorkFault, create, emit_node_status}
use shiroe.Work.Store.Replay.{no_tables}
use shiroe.Execution.Budget.{BudgetTracker, Spend, would_exceed, charge, IsWithin, would_exceed_iff}
use shiroe.Execution.Services.{Services, returned, raised, check}
use shiroe.Execution.Attempts.{find_attempt, as_is, attempt_count, record_attempt}
use shiroe.Execution.Tried.{RunState, Tried, done, returns, caught, uncaught, at_work}
use shiroe.Execution.Attempt.{invoke_node, attempts}
use shiroe.Execution.Handling.{run_capability}
use shiroe.Execution.Supervisor.{RunSummary, Ran, summary, broke, out_of_fuel, run}
use shiroe.Execution.Runs.{run_ends}
use shiroe.Execution.Accepted.{IsAccepted, attempts-IsAccepted}
use shiroe.Execution.Limits.{limit, Leaves, attempt_count-run_capability}
use shiroe.Execution.Raised.{invoke_node-raised}

-- the world counts what it is asked
abbrev answering : Services ℕ
answering = record {
  executable = λ x id. none;
  authorize = λ x graph_id node_id capability_id. (
    suc x,
    record { verdict = allow; reason = "granted"; deciding_layer = "grants"; approval_id = none },
  );
  invoke = λ x graph_id node capability_id.
      (suc x, returned true none (field "report" (str "done") end) (field "tokens_in" (num 5) end));
  review = λ x node_id output executor reviewer. (suc x, check true);
  latest_approval = λ x graph_id node_id. none;
  assert_current = λ x approval_id scope. (x, ApprovalStatus.approved);
  request = λ x graph_id node action_kind. (suc x, "ap_1");
  new_id = λ x. (suc x, "wa_1");
}

abbrev writing : Bool → WorkNode
writing reviewed = record {
  id = "a";
  graph_id = "g";
  kind = task;
  objective = "write the report";
  requires = "cap" ∷ [];
  risk = "low";
  approval_required = false;
  independent_review = reviewed;
  evidence_required = false;
  expected_outputs = "report" ∷ [];
  retry = record { max_attempts = 1; backoff_s = 0 };
  placement = record { mode = "local"; node_id = none };
  metadata = end;
}

abbrev graph : Bool → WorkGraph
graph reviewed = record {
  id = "g";
  objective = "a report";
  nodes = writing reviewed ∷ [];
  edges = [];
  constraints = [];
  success_criteria = [];
  status = GraphStatus.draft;
  version = 1;
  metadata = end;
}

abbrev budget : BudgetTracker
budget = record {
  usd_max = 0;
  tokens_input_max = 8;
  tokens_output_max = 0;
  usd_spent = 0;
  tokens_input_spent = 0;
  tokens_output_spent = 0;
}

abbrev stored : Bool → RunState ℕ
stored reviewed = record {
  work = (create as_is (record { tables = no_tables; log = [] }) (graph reviewed)).0;
  budget = budget;
  world = 0;
}

abbrev status_after : Ran ℕ → Option (GraphStatus × List String × Option String)
status_after (summary t result) = some (result.status, result.completed, result.reason)
status_after (broke f) = none
status_after out_of_fuel = none

-- the node completes; one that asks for a review without a reviewer blocks
run_completes :
    status_after (run answering (stored false) "g") ≡ some (GraphStatus.completed, "a" ∷ [], none)
unfolding run create store_ready_node_ids contains
run_completes = refl

run_blocks :
    status_after (run answering (stored true) "g")
    ≡ some (GraphStatus.paused, [], some "independent_review")
unfolding run create store_ready_node_ids contains
run_blocks = refl

abbrev state_after : Ran ℕ → RunState ℕ
state_after (summary t result) = t
state_after (broke f) = stored true
state_after out_of_fuel = stored true

-- the resumed run fails, and asks nothing
run_fails :
    status_after (run answering (state_after (run answering (stored true) "g")) "g")
    ≡ some (GraphStatus.failed, [], some "None")
unfolding run create store_ready_node_ids contains
run_fails = refl

run_ends_example :
    ((t : RunState ℕ) × (result : RunSummary) × (run answering (stored false) "g"
        ≡ summary t result))
    ⊎ ((f : WorkFault) × (run answering (stored false) "g" ≡ broke f))
unfolding create
run_ends_example = run_ends answering (stored false) "g" (tt, tt)

abbrev call : Spend
call = record { usd = 3; tokens_input = 9; tokens_output = 1 }

would_exceed_iff_example : (would_exceed budget call ≡ none) ↔ IsWithin (charge budget call)
would_exceed_iff_example = would_exceed_iff budget call

abbrev done_or : RunState ℕ → Tried ℕ → RunState ℕ
done_or s (done t) = t
done_or s (returns t stop) = s
done_or s (caught t message) = s
done_or s (uncaught f) = s

abbrev finished : RunState ℕ
finished =
    done_or (stored false) (attempts answering 1 (stored false) "g" (writing false) "cap" 0 "None")

finished_done :
    attempts answering 1 (stored false) "g" (writing false) "cap" 0 "None" ≡ done finished
unfolding attempts create
finished_done = refl

attempts-IsAccepted_example :
    (u : RunState ℕ) × IsAccepted answering "g" (writing false) "cap" u finished
attempts-IsAccepted_example =
    attempts-IsAccepted answering "g" (writing false) 1 (stored false) finished "cap" 0 "None"
      finished_done

abbrev row : NodeRow
row = new_row "g" (writing true)

attempt_count-run_capability_example :
    Leaves
      (λ (t : RunState ℕ).
        (attempt_count "a" t.work.tables.attempts
          ≤ attempt_count "a" (stored true).work.tables.attempts)
        ⊎ (attempt_count "a" t.work.tables.attempts ≤ limit 1))
      (run_capability answering (stored true) "g" row "cap")
attempt_count-run_capability_example =
    attempt_count-run_capability answering (stored true) "g" row "cap"

abbrev tried : RunState ℕ
tried = at_work (stored true) (record_attempt (stored true).work "wa_1" "g" "a" "cap" "completed")

-- after a review that failed has blocked the node
abbrev held : RunState ℕ
held = at_work tried (emit_node_status as_is tried.work "a" NodeStatus.blocked)

abbrev held_row : NodeRow
held_row = record row { status = NodeStatus.blocked; state_version = suc row.state_version }

-- services whose adapter raises
abbrev raising : Services ℕ
raising = record answering {
  invoke = λ x graph_id node capability_id. (suc x, raised "no such file");
}

invoke_node-raised_example :
    (t : RunState ℕ) × (invoke_node raising (stored false) "g" (writing false) "cap"
      ≡ caught t "no such file")
    × (t.budget ≡ (stored false).budget)
    × ((r : AttemptRow) × (find_attempt "wa_1" t.work.tables.attempts ≡ some r)
        × (r.state ≡ "running"))
unfolding find_attempt create
invoke_node-raised_example =
    invoke_node-raised raising (stored false) "g" (writing false) "cap" "wa_1" "no such file" 1 2
      refl refl refl
