-- ===== src/Work/Store/Versions.antt =====
-- The version of a node that an update expects.
use shiroe.Prelude.{
  ℕ, suc, String, false, Option, none, some, ◌≡◌, ◌≢◌, refl, ◌==◌, string_eq, nat_eq, arith,
  ==_refl,
}
use shiroe.Prelude.Json.{Fields}
use shiroe.Work.Schema.{NodeStatus}
use shiroe.Work.Tables.{NodeRow, WorkEvent, step_row, step, apply_work}
use shiroe.Work.Store.{
  WorkState, did, raises, concurrent_update, find_node, get_node, emit_work, emit_node_status,
  step_event, set_node_status, record_output,
}
use shiroe.Work.Store.Rows.{find_node-apply_step, find_node-apply_step_other}

module _ (sealed : WorkEvent → WorkEvent) where
  find_node-emit :
      (s : WorkState) (event_type id : String) (to : Option NodeStatus) (output : Option Fields)
      (row : NodeRow)
      → sealed (step event_type id to output) ≡ step event_type id to output
      → find_node id s.tables.nodes ≡ some row
      → find_node id (emit_work sealed s (step event_type id to output)).tables.nodes
        ≡ some (step_row to output row)
  unfolding emit_work apply_work
  find_node-emit s event_type id to output row kept h =
      rw kept (find_node-apply_step to output id s.tables row h)

  other :
      (s : WorkState) (event_type id k : String) (to : Option NodeStatus)
      → sealed (step event_type id to none) ≡ step event_type id to none
      → k ≢ id
      → find_node k (emit_work sealed s (step event_type id to none)).tables.nodes
        ≡ find_node k s.tables.nodes
  unfolding emit_work apply_work
  other s event_type id k to kept ne = rw kept (find_node-apply_step_other to none k id s.tables ne)

  set_node_status-did :
      (s : WorkState) (id : String) (next : NodeStatus) (row : NodeRow)
      → find_node id s.tables.nodes ≡ some row
      → set_node_status sealed s id next row.state_version ≡ did (emit_node_status sealed s id next)
  unfolding set_node_status
  set_node_status-did s id next row h =
      rw (h, set_node_status) (rw (==_refl row.state_version) refl)

  suc_apart : (n : ℕ) → (suc n == n) ≡ false
  suc_apart n = ground arith

  -- An update that names the version of the node succeeds: the node has the new status and the next
  -- version, each other node is as it was, and a second writer with the old version is refused, with
  -- a status and with an output. The log keeps the texts of the event of the update.
  pub set_node_status_once :
      (s : WorkState) (id k : String) (next again : NodeStatus) (output : Fields) (row : NodeRow)
      → sealed (step (step_event next) id (some next) none)
        ≡ step (step_event next) id (some next) none
      → get_node s id ≡ some row
      → k ≢ id
      → (t : WorkState) × (set_node_status sealed s id next row.state_version ≡ did t)
        × (get_node t id
            ≡ some (record row { status = next; state_version = suc row.state_version }))
        × (get_node t k ≡ get_node s k)
        × (set_node_status sealed t id again row.state_version ≡ raises (concurrent_update id))
        × (record_output sealed t id output row.state_version ≡ raises (concurrent_update id))
  unfolding get_node emit_node_status set_node_status record_output
  set_node_status_once s id k next again output row kept h ne =
      let t = emit_node_status sealed s id next in
      let f = find_node-emit s (step_event next) id (some next) none row kept h in
      (
        t,
        set_node_status-did s id next row h,
        f,
        other s (step_event next) id k (some next) kept ne,
        rw (f, set_node_status) (rw (suc_apart row.state_version) refl),
        rw (f, record_output) (rw (suc_apart row.state_version) refl),
      )
