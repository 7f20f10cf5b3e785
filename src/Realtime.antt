-- ===== src/Realtime.antt =====
-- src/honeypot_ai/realtime.py: following files as they grow.
pub mod Read
pub mod Polls
pub mod Stream
pub mod Atomic
pub mod System
pub mod Followed
pub mod Refinement
pub mod Delivery
pub mod Offsets
pub mod Saved
pub mod Validate
pub mod Splunk
