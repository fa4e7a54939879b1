-- ===== src/Messages.antt =====
-- internal/messages: the store of messages and its pages.
pub mod Table
pub mod Store
pub mod Keys
pub mod Effects
pub mod Writes
pub mod Unique
pub mod Newest
pub mod Reads
pub mod Search
pub mod Pages
pub mod Gone
pub mod Hidden
