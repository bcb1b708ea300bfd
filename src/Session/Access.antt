-- ===== src/Session/Access.antt =====
-- The access levels of generated/registry_constants.hpp, in the order of their numbers.
use slop_sync.Base.{ℕ}

pub data AccessLevel : Type 0 where
  watch control configure : AccessLevel

-- `uint8_t(role)`.
abbrev pub rank : AccessLevel → ℕ
rank watch = 0
rank control = 1
rank configure = 2
