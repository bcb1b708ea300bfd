-- ===== src/Session.antt =====
-- session/ of the library: who controls a source, and what is shed under load.
pub mod Access
pub mod Ownership
pub mod Shedding
pub mod Pairing
pub mod Pending
