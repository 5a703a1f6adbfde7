-- ===== src/Consumers.antt =====
-- The batteries that poll the emulated meter of src/astrameter/ct002/ct002.py.
pub mod Requests
pub mod Store
pub mod Settings
pub mod Expiry
pub mod Events
pub mod Memory
pub mod Shaving
pub mod Buckets
pub mod Polls
pub mod Answers
