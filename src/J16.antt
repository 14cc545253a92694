-- ===== src/J16.antt =====
-- internal/ocpp/j16: the OCPP 1.6J frames, enumerations and messages.
pub mod Enums
pub mod Messages
pub mod Frame
pub mod RoundTrip
pub mod Texts
pub mod Marshal
pub mod Unmarshal
pub mod Payloads
