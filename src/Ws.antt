-- ===== src/Ws.antt =====
-- internal/transport/ws/client.go: the WebSocket client of a charger.
pub mod Client
pub mod Delivery
pub mod Shutdown
