-- ===== src/Stores.antt =====
-- The implementations of `store_fn_t` and `fetch_fn_t`: what becomes of the calls of sfs.c.
pub mod Memory
pub mod Files
pub mod Reads
pub mod Stats
