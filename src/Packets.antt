-- ===== src/Packets.antt =====
-- Captured packets: the decoder of finished capture files of cpp/telemetry.
pub mod Headers
pub mod Decoder
mod Tests
