-- ===== src/Api.antt =====
-- internal/api: the HTTP server around one charger, and its persisted configuration.
pub mod Strings
pub mod Server
pub mod Requests
pub mod Handlers
pub mod Bodies
pub mod Routes
pub mod Paths
pub mod Wanted
pub mod Named
pub mod Routed
pub mod Lasting
pub mod Restarted
pub mod Commanded
pub mod One
pub mod Reads
pub mod Shown
pub mod Fanout
pub mod Hub
pub mod HubSafety
pub mod Configured
