-- ===== src/Policy.antt =====
-- shiroe/policy: actions, layered rules, the autonomy gate, human approvals.
pub mod Schema
pub mod Precedence
pub mod Autonomy
pub mod Engine
pub mod Approvals
pub mod ApprovalService
pub mod Service
mod Tests
mod ApprovalTests
