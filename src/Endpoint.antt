-- ===== src/Endpoint.antt =====
-- src/honeypot_ai/endpoint.py: windows of features for each endpoint.
pub mod Select
pub mod Time
pub mod Ebpf
pub mod State
pub mod Apply
pub mod Windows
pub mod Roles
pub mod Totals
pub mod Labels
pub mod Invariant
pub mod Records
pub mod Dataset
