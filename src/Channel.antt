-- ===== src/Channel.antt =====
-- channel/ of the library: the bounded per-session stores of the channel plane.
pub mod EventQueue
pub mod IntentRing
pub mod RetainedStore
pub mod Subscription
