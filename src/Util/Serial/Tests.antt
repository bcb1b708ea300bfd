-- ===== src/Util/Serial/Tests.antt =====
-- The laws of util/serial_arithmetic.hpp at concrete values, across the wrap.
use slop_sync.Base.{◌<◌, ◌≡◌, ◌↔◌, true, arith}
use slop_sync.Util.Serial.{seq_is_newer}
use slop_sync.Util.Serial.Laws.{seq_is_newer_iff}

seq_is_newer_iff_example : (seq_is_newer 1 0xffff ≡ true) ↔ ((0 < 2) × (2 < 0x8000))
seq_is_newer_iff_example = seq_is_newer_iff 0xffff 2 (omega arith) (omega arith)
