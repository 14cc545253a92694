-- ===== src/Actor.antt =====
-- internal/actor/charger.go: the charger actor.
pub mod State
pub mod Connectors
pub mod Snapshot
pub mod Send
pub mod Results
pub mod Commands
pub mod Inbound
pub mod Link
pub mod New
pub mod Run
pub mod Offline
pub mod Induction
pub mod Shown
pub mod Recorded
pub mod Starting
pub mod Reconnect
pub mod Lifecycle
pub mod Answers
pub mod Settled
pub mod Once
pub mod Moves
pub mod Machine
pub mod Replied
