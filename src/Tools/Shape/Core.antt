-- ===== src/Tools/Shape/Core.antt =====
-- tools/core.py: the replies of its tools.
pub mod Inventory
pub mod Interfaces
pub mod Health
pub mod Topology
pub mod Wan
pub mod Every
