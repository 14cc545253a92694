-- ===== src/Actor/Recorded.antt =====
-- internal/actor/charger.go and internal/session/store.go: every open transaction is on record in the
-- store, so that it can be closed after an outage at any time.
pub mod Base
pub mod Sends
pub mod Handlers
pub mod Run
