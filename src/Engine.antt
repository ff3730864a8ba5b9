-- ===== src/Engine.antt =====
-- Package engine, pkg/engine: the housekeeping rules over what the cluster reports.
pub mod Types
pub mod Rules
pub mod View
pub mod Artifacts
pub mod Sweep
pub mod Stamp
pub mod Apply
pub mod Decommission
pub mod History
pub mod Authorized
