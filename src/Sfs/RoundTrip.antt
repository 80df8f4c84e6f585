-- ===== src/Sfs/RoundTrip.antt =====
-- What src/sfs.c restores of an object that it stored, and what it refuses.
pub mod Canon
mod Steps
mod Decode
mod Parts
mod Objects
pub mod Loads
mod Refused
unfoldable pub use Canon.{canon, Restorable, Faithful, RestorableMeta, Fits}
pub use Canon.{canon-Faithful}
pub use Loads.{sfs_load-encode, restore-encode, restore-encode-Faithful}
pub use Refused.{restore-encode-raw, restore-encode-s4, restore-encode-long}
