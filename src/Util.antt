-- ===== src/Util.antt =====
-- util/ of the library: wrapping time and sequence numbers, and the bounded string.
pub mod Serial
pub mod MonotonicMs
pub mod BoundedString
