-- ===== src/Pool/Deadlines.antt =====
-- When a call of src/pool.rs is idle-expired.
use rust_yamp.Prelude.{ℕ, ◌+◌, ◌^◌, ◌<◌, ◌≡◌, ltb, leb, ◌&&◌, arith}
use rust_yamp.Pool.{deadline, expired}

-- A call with an idle budget expires exactly when the budget has passed since its last progress,
-- and a call with no budget never: if the clock is positive and the sum fits a `u64`.
pub expired-deadline :
    (start idle now : ℕ)
    → 0 < start
    → start + idle < 2 ^ 64
    → expired (deadline start idle) now ≡ (ltb 0 idle && leb (start + idle) now)
unfolding expired deadline
expired-deadline start idle now p h = ground arith
