-- ===== src/Afterwrite/Times.antt =====
-- What TIMEDIFF of OptaneStudy/microbenchmark/read_after_write.cpp makes of two times.
use rw_sep.Prelude.{ℕ, ◌+◌, ◌-◌, ◌*◌, ◌≤◌, ◌<◌, ◌^◌, ◌≡◌, ◌↔◌, arith}
use rw_sep.Afterwrite.{Timeval, timediff}

-- The time since the epoch, in nanoseconds.
abbrev pub nanoseconds : Timeval → ℕ
nanoseconds t = t.tv_sec * 1000000000 + t.tv_usec * 1000

-- For an end that is not before the start, at most 2 ^ 32 seconds after it, with fields in range:
-- the difference that is computed is that of the two times if, and only if, their microseconds
-- agree.
pub timediff_misses :
    (start end : Timeval)
    → start.tv_usec < 1000000
    → end.tv_usec < 1000000
    → start.tv_sec < 2 ^ 63
    → end.tv_sec < 2 ^ 63
    → end.tv_sec ≤ start.tv_sec + 2 ^ 32
    → nanoseconds start ≤ nanoseconds end
    → (timediff start end ≡ nanoseconds end - nanoseconds start) ↔ (start.tv_usec ≡ end.tv_usec)
unfolding timediff
timediff_misses start end a b c d e h = (λ k. ground arith, λ k. ground arith)
