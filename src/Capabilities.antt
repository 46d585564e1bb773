-- ===== src/Capabilities.antt =====
-- shiroe/capabilities: what may be executed.
pub mod Lifecycle
mod Tests
