-- ===== src/Protocol.antt =====
-- src/protocol.rs: the source actions of an adapter's operation, and their lifecycle.
pub mod Actions
pub mod Matching
pub mod Cursor
