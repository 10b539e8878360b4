-- ===== src/Operations.antt =====
-- Operations of a bot (src/aurora_bot/operations): each request is recorded, carried out and
-- answered by a receipt, across retries, interleavings and restarts.
pub mod Definitions
pub mod Registry
pub mod Dispatch
pub mod Counting
pub mod Locking
pub mod Once
pub mod Agreement
pub mod Payloads
pub mod Wire
pub mod Stored
pub mod Codec
pub mod Encoding
pub mod Bodies
pub mod Tests
pub mod BodyTests
