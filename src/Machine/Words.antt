-- ===== src/Machine/Words.antt =====
-- Comparison of 64-bit words where the signs agree.
use rw_sep.Prelude.{ℕ, ◌^◌, ◌<◌, ◌≤◌, true, false, ◌≡◌, arith}
use rw_sep.Machine.{signed_ltb}

pub signed_ltb-true : (a b : ℕ) → a < b → b < 2 ^ 63 → signed_ltb a b ≡ true
signed_ltb-true a b h k = ground arith

pub signed_ltb-false : (a b : ℕ) → b ≤ a → a < 2 ^ 63 → signed_ltb a b ≡ false
signed_ltb-false a b h k = ground arith

-- A negative bound is below every count.
pub signed_ltb_negative : (a b : ℕ) → a < 2 ^ 63 → 2 ^ 63 ≤ b → b < 2 ^ 64 → signed_ltb a b ≡ false
signed_ltb_negative a b h k l = ground arith
