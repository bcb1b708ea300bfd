-- ===== src/Util/MonotonicMs/Tests.antt =====
-- `MonotonicMs` across two wraps of the microsecond clock.
use slop_sync.Base.{◌∷◌, [], ◌≡◌, arith}
use slop_sync.Util.MonotonicMs.{fresh, advance}
use slop_sync.Util.MonotonicMs.Exact.{advance_by, advance_exact}

advance_exact_example :
    (advance_by 4_000_000_000 (advance fresh 4_000_000_000) (4_000_000_000 ∷ 4_000_000_000 ∷ [])).ms
    ≡ 12_000_000
advance_exact_example =
    advance_exact 4_000_000_000 (4_000_000_000 ∷ 4_000_000_000 ∷ []) (omega arith) (omega arith)
