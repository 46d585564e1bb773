-- ===== src/Work.antt =====
-- shiroe/work: work graphs.
pub mod Schema
pub mod Cycle
pub mod Compiler
pub mod Readiness
pub mod Tables
pub mod Store
mod Tests
mod StoreTests
