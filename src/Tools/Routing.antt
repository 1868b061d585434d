-- ===== src/Tools/Routing.antt =====
-- tools/routing_diagnostics.py: routing and device diagnostics.
pub mod Bgp
pub mod Get
pub mod Diagnostics
