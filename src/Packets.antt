-- ===== src/Packets.antt =====
-- src/honeypot_ai/packets.py
pub mod Frame
pub mod Bounds
pub mod Pcap
pub mod Capture
