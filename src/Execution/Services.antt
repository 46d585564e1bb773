-- ===== src/Execution/Services.antt =====
-- What the supervisor asks of the other components. `World` is what they keep: approvals, capabilities,
-- leases, and what adapters change; none of them writes the work tables.
use shiroe.Prelude.{String, Bool, Option}
use shiroe.Prelude.Json.{Json, Fields}
use shiroe.Policy.Approvals.{ApprovalStatus}
use shiroe.Policy.Service.{AuthorizationResult}
use shiroe.Work.Schema.{WorkNode}

-- What an adapter or a dispatcher returns, its output a dict or nothing; or the text of the error that it
-- raises, of those that the supervisor catches; other errors have no counterpart here.
pub data Invoked : Type 0 where
  returned : (ok : Bool) → (error : Option String) → (output usage : Fields) → Invoked
  raised : String → Invoked

-- `run_independent_review`: whether the check passed, or an error that only the loop of attempts catches
pub data Reviewed : Type 0 where
  check : (passed : Bool) → Reviewed
  review_raised : String → Reviewed

pub record Services (World : Type 0) : Type 0 where
  -- `assert_executable`: the text of the error, if there is one
  pub executable : World → String → Option String
  -- `PolicyService.authorize` of an invocation: the graph, the node and the capability
  pub authorize : World → String → String → String → World × AuthorizationResult
  -- the adapter of the capability, or the dispatcher where the node is placed on another machine
  pub invoke : World → String → WorkNode → String → World × Invoked
  -- the node, its output, the executor and the reviewer
  pub review : World → String → Fields → String → Json → World × Reviewed
  -- `_latest_approval_id` of a graph and a node
  pub latest_approval : World → String → String → Option String
  -- `ApprovalService.assert_current`
  pub assert_current : World → String → Json → World × ApprovalStatus
  -- `ApprovalService.request` for a graph and a node, with the kind of the action
  pub request : World → String → WorkNode → String → World × String
  -- `uuid.uuid4`
  pub new_id : World → World × String
