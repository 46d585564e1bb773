-- ===== src/Nodes.antt =====
-- shiroe/nodes: the machines that a work node may run on, and their leases.
pub mod Store
pub mod Leases
pub mod Final
mod Tests
