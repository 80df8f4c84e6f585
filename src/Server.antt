-- ===== src/Server.antt =====
-- The object server: the store of objects, the tracking of dependencies, and the two protocols.
pub mod Objects
pub mod Deps
pub mod State
pub mod Requests
pub mod Http
pub mod Tcp
