-- ===== src/Session.antt =====
-- internal/session: open transactions kept on disk.
pub mod Store
pub mod Key
pub mod Disk
pub mod Lookup
pub mod Reload
