-- ===== src/Tests.antt =====
-- The theorems at concrete inputs.
mod Connections
mod Objects
mod Pieces
mod Sends
mod Servers
mod Queues
mod Sessions
mod Events
