-- ===== src/Wire.antt =====
-- The UDP wire protocol, src/astrameter/ct002/protocol.py: checksums, numbers in text, datagrams.
pub mod Numbers
pub mod Datagram
pub mod Digits
pub mod Xor
pub mod Split
pub mod RoundTrip
pub mod Corruption
