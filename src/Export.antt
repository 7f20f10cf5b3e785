-- ===== src/Export.antt =====
-- What leaves the program: indicators, and records for Wazuh, Splunk and MISP.
pub mod Records
pub mod Wazuh
pub mod Marked
pub mod Each
pub mod Iocs
pub mod Known
pub mod Cdb
pub mod Keys
pub mod Rows
pub mod Misp
pub mod Deduped
