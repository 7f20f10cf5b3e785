-- ===== src/Ml.antt =====
-- src/honeypot_ai/ml.py: training, choosing and applying a model that scores endpoint windows.
pub mod Numerics
pub mod Candidates
pub mod Ties
pub mod Counts
pub mod Covers
pub mod Names
pub mod Scorers
pub mod Calibration
pub mod Metrics
pub mod Choice
pub mod Confusion
pub mod Split
pub mod Temporal
pub mod Fit
pub mod Trained
pub mod Train
pub mod Selected
pub mod Safety
pub mod Evaluate
pub mod Tune
pub mod Alerts
pub mod Raised
