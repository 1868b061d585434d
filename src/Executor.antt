-- ===== src/Executor.antt =====
-- executor.py: from an action and its arguments to one call of the SDK, whose result is redacted.
pub mod Paths
pub mod Body
pub mod Binding
pub mod Dispatch
pub mod Laws
pub mod Bound
pub mod Arguments
pub mod Tests
