-- ===== src/Packet/Decode.antt =====
-- What `decode_packet` does: frames that it accepts, input that it skips, and where it stops.
pub mod Header
pub mod Wire
pub mod RoundTrip
pub mod Total
pub mod Skip
pub mod Reject
pub mod Partial
pub mod Overread
