-- ===== src/Detectors.antt =====
-- src/honeypot_ai/detectors.py: sessions become scored findings.
pub mod Heuristic
pub mod Score
pub mod Anomaly
pub mod Findings
pub mod Laws
pub mod Techniques
pub mod Report
