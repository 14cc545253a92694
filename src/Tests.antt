-- ===== src/Tests.antt =====
-- The theorems at concrete inputs: a float of natural numbers, an environment in which every write,
-- dial and disk call succeeds, and a small charger.
mod Values
mod Meters
mod Sessions
mod Actors
mod Frames
mod Servers
mod Requests
mod Cms
mod Sockets
mod Outages
