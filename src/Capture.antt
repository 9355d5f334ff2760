-- ===== src/Capture.antt =====
-- Packet capture: the PCAPNG writer of cpp/capture, and the check of a segment it left unfinished.
pub mod Writer
pub mod Partial
mod Tests
