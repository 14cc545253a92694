-- ===== src/Cms.antt =====
-- cmd/stub-cms/main.go: the central system for development.
pub mod Server
pub mod Handshake
pub mod Replies
pub mod Transactions
pub mod Conversation
pub mod Exchange
pub mod Charging
pub mod Requested
pub mod Stopping
pub mod Booting
pub mod Outage
