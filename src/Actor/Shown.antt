-- ===== src/Actor/Shown.antt =====
-- internal/actor/charger.go: a connector with an open transaction shows Charging or Finishing.
pub mod Sends
pub mod Commands
pub mod Results
pub mod Run
