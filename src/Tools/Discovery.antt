-- ===== src/Tools/Discovery.antt =====
-- tools/discovery.py: finding records by name, the catalog, and paths.
pub mod Find
pub mod Catalog
pub mod Path
pub mod Expert
