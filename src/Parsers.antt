-- ===== src/Parsers.antt =====
-- src/honeypot_ai/parsers.py
pub mod Values
pub mod Detect
pub mod Records
pub mod Generic
pub mod Tpot
pub mod Lines
pub mod Kept
pub mod Batches
