-- ===== src/Fastalloc/Rounding.antt =====
-- The rounding of a request in `fastalloc::alloc` (fastallocate/fastalloc.cpp).
use rw_sep.Prelude.{ℕ, ◌+◌, ◌-◌, ◌%◌, ◌^◌, ◌≤◌, ◌<◌, ◌≡◌, arith}
use rw_sep.Fastalloc.{round_up}

-- A request of at most 2 ^ 64 - 64 bytes is rounded up to the least multiple of 64 that holds it.
pub round_up_least :
    (size : ℕ)
    → size ≤ 2 ^ 64 - 64
    → (round_up size % 64 ≡ 0) × (size ≤ round_up size) × (round_up size < size + 64)
unfolding round_up
round_up_least size h = ground arith

-- A larger request wraps round to 0, and is granted no byte.
pub round_up_wraps : (size : ℕ) → 2 ^ 64 - 64 < size → size < 2 ^ 64 → round_up size ≡ 0
unfolding round_up
round_up_wraps size h k = ground arith
