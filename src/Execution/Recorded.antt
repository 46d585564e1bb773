-- ===== src/Execution/Recorded.antt =====
-- The row of a node once `record_output` of shiroe/work/store.py has stored its output.
use shiroe.Prelude.{String, none, some, ◌≡◌, refl, arith, string_eq, nat_eq, ==_refl}
use shiroe.Prelude.Json.{Fields}
use shiroe.Work.Tables.{NodeRow, step, apply_work}
use shiroe.Work.Store.{WorkState, did, find_node, emit_work, record_output}
use shiroe.Work.Store.Rows.{find_node-apply_step}
use shiroe.Execution.Results.{output_of}
use shiroe.Execution.Attempts.{as_is}

record_output-did :
    (s w : WorkState) (id : String) (output : Fields) (row : NodeRow)
    → find_node id s.tables.nodes ≡ some row
    → record_output as_is s id output row.state_version ≡ did w
    → emit_work as_is s (step "step.completed" id none (some output)) ≡ w
unfolding record_output
record_output-did s w id output row f d = ground (arith, f, ==_refl row.state_version)

-- what a node's row holds once its output is recorded
pub output_of-recorded :
    (s w : WorkState) (id : String) (output : Fields) (row : NodeRow)
    → find_node id s.tables.nodes ≡ some row
    → record_output as_is s id output row.state_version ≡ did w
    → output_of id w ≡ output
unfolding output_of record_output emit_work apply_work
output_of-recorded s w id output row f d =
    let e : emit_work as_is s (step "step.completed" id none (some output)) ≡ w =
      record_output-did s w id output row f d in
    rw (← e) (rw (find_node-apply_step none (some output) id s.tables row f, output_of) refl)
