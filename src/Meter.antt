-- ===== src/Meter.antt =====
-- internal/sim/meter: the meter engine, its readings as OCPP values, and the meter faults.
pub mod Float
pub mod Engine
pub mod Ocpp
pub mod Fault
pub mod FaultLaws
pub mod EngineLaws
