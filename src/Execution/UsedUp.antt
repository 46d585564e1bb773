-- ===== src/Execution/UsedUp.antt =====
-- A blocked node whose attempts are used up, in a run that is resumed.
use shiroe.Prelude.{suc, string_eq, nat_eq}
use shiroe.Work.Schema.{node_kind_eq, NodeStatus, node_status_eq}
use shiroe.Work.Tables.{NodeRow}
use shiroe.Execution.Services.{Services}

-- the row of a node after it is unblocked
abbrev pub pending_again : NodeRow → NodeRow
pending_again row = record row {
  status = NodeStatus.pending;
  state_version = suc row.state_version;
}
