-- ===== src/Storage.antt =====
-- shiroe/storage: the canonical event log and the tables that are folded from it.
pub mod Envelope
pub mod Log
mod Tests
