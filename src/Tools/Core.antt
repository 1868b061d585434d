-- ===== src/Tools/Core.antt =====
-- tools/core.py: inventory, device health, interfaces, topology and WAN.
pub mod Inventory
pub mod Health
pub mod Interfaces
pub mod Topology
pub mod Wan
pub mod Fanout
pub mod Tests
