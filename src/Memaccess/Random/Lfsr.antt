-- ===== src/Memaccess/Random/Lfsr.antt =====
-- The shift register of `RandLFSR64` (OptaneStudy/src/memaccess.c) as a function on words.
use rw_sep.Prelude.{
  ℕ, ◌+◌, ◌*◌, ◌/◌, ◌%◌, ◌^◌, ◌<◌, ◌≡◌, ◌≢◌, refl, ap, sym, ◌∙◌, ◌==◌, if◌then◌else◌, bit_xor,
  arith,
}
use rw_sep.Prelude.Bits.{bit_xor_twice, bit_xor-lt, bit_xor-div, bit_xor_comm}
use rw_sep.Memaccess.Random.{lfsr_mask}

-- One step: the word is shifted right, and the mask is added where a 1 falls out.
unfoldable pub lfsr_step : ℕ → ℕ
lfsr_step x = bit_xor (if x % 2 == 0 then 0 else lfsr_mask) (x / 2)

-- The step backwards: the top bit tells which bit fell out.
unfoldable pub lfsr_back : ℕ → ℕ
lfsr_back y = if y / 2 ^ 63 == 0 then bit_xor y 0 * 2 else bit_xor y lfsr_mask * 2 + 1

-- What falls out is the top bit of the result, and the mask taken off again leaves the rest.
even_step :
    (x : ℕ)
    → x < 2 ^ 64
    → (bit_xor 0 (x / 2) / 2 ^ 63 ≡ 0) × (bit_xor (bit_xor 0 (x / 2)) 0 ≡ x / 2)
even_step x h =
    let flat : x / 2 / 2 ^ 63 ≡ 0 = omega arith in
    (
      bit_xor-div 63 0 (x / 2) ∙ rw flat,
      ap (λ t. bit_xor t 0) (bit_xor_comm (2 ^ 64) 0 (x / 2) (omega arith) (omega arith))
          ∙ bit_xor_twice (2 ^ 64) (x / 2) 0 (omega arith) (omega arith),
    )

odd_step :
    (x : ℕ)
    → x < 2 ^ 64
    → (bit_xor lfsr_mask (x / 2) / 2 ^ 63 ≡ 1)
      × (bit_xor (bit_xor lfsr_mask (x / 2)) lfsr_mask ≡ x / 2)
odd_step x h =
    let flat : x / 2 / 2 ^ 63 ≡ 0 = omega arith in
    (
      bit_xor-div 63 lfsr_mask (x / 2) ∙ rw flat,
      ap (λ t. bit_xor t lfsr_mask)
            (bit_xor_comm (2 ^ 64) lfsr_mask (x / 2) (omega arith) (omega arith))
          ∙ bit_xor_twice (2 ^ 64) (x / 2) lfsr_mask (omega arith) (omega arith),
    )

-- A step can be undone, whatever the word.
pub lfsr_back-lfsr_step : (x : ℕ) → x < 2 ^ 64 → lfsr_back (lfsr_step x) ≡ x
unfolding lfsr_back lfsr_step
lfsr_back-lfsr_step x h = ground (arith, even_step x h, odd_step x h)

pub lfsr_step-lt : (x : ℕ) → x < 2 ^ 64 → lfsr_step x < 2 ^ 64
unfolding lfsr_step
lfsr_step-lt x h = bit_xor-lt 64 _ (x / 2) (ground arith) (omega arith)

pub lfsr_step_nonzero : (x : ℕ) → x < 2 ^ 64 → x ≢ 0 → lfsr_step x ≢ 0
lfsr_step_nonzero x h ne e =
    ne (sym (lfsr_back-lfsr_step x h) ∙ ap lfsr_back e ∙ unfold lfsr_back in refl)
