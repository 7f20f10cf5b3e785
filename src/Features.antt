-- ===== src/Features.antt =====
-- src/honeypot_ai/features.py: events become one record of features for each session.
mod Defs
pub mod Counts
pub mod Invariant
pub mod Window
unfoldable pub use Defs.*
