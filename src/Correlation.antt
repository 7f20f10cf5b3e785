-- ===== src/Correlation.antt =====
-- src/honeypot_ai/correlation.py
pub mod Actors
pub mod Visits
