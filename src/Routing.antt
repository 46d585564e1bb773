-- ===== src/Routing.antt =====
-- shiroe/routing and shiroe/core/reasoning.py: what a task may ask of a model.
pub mod Levels
pub mod Signals
pub mod Criticality
pub mod Gateway
mod Tests
