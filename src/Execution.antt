-- ===== src/Execution.antt =====
-- shiroe/execution: the budget of a run and the supervisor that runs a work graph.
pub mod Budget
pub mod Services
pub mod Results
pub mod Attempts
pub mod Tried
pub mod Attempt
pub mod Refresh
pub mod Handling
pub mod Supervisor
pub mod Shrinks
pub mod Keeps
pub mod Bounded
pub mod Rows
pub mod Went
pub mod Passes
pub mod Approvals
pub mod Terminates
pub mod Runs
pub mod Recorded
pub mod Delivered
pub mod Accepted
pub mod Limits
pub mod UsedUp
pub mod Raised
mod Tests
