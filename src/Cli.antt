-- ===== src/Cli.antt =====
-- The package cli: running commands on a device over SSH.
pub mod Policy
pub mod Redact
pub mod Ssh
pub mod Address
pub mod Reply
pub mod Run
pub mod Rendered
