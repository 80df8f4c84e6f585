-- ===== src/Sfs.antt =====
-- src/sfs.c, src/sfs.h: the serialiser of R objects, and its inverse.
pub mod Object
pub mod Store
pub mod Load
pub mod RoundTrip
pub mod Total
pub mod Calls
