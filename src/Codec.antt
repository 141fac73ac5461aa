-- ===== src/Codec.antt =====
-- codec.py: the wire format of a message, MessagePack with large binaries moved out of band.
pub mod Values
pub mod Fields
pub mod Extract
pub mod Restore
pub mod Remaining
pub mod Frame
pub mod Received
pub mod Extracted
pub mod Shape
pub mod Sequential
pub mod RoundTrip
pub mod Unframed
pub mod Tests
pub mod Segments
