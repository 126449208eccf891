-- ===== src/Memaccess/Random/Seeds.antt =====
-- The seed of the `sizebw_` kernels of OptaneStudy/src/memaccess.c, from one draw to the next.
use rw_sep.Prelude.{ℕ, ◌^◌, ◌<◌, ◌≡◌, ◌≢◌}
use rw_sep.Machine.{Cpu, run}
use rw_sep.Memaccess.Stride.{enter_round}
use rw_sep.Memaccess.Random.{lfsr_mask, rand_lfsr64}
use rw_sep.Memaccess.Random.Lfsr.{
  lfsr_step, lfsr_back, lfsr_back-lfsr_step, lfsr_step-lt, lfsr_step_nonzero,
}
use rw_sep.Memaccess.Random.Draws.{Drawn, rand_lfsr64-Drawn}

-- The address of an access has no part in the draw.
drawn_word :
    (random access_mask : ℕ) (c : Cpu)
    → random < 2 ^ 64
    → c.rcx ≡ lfsr_mask
    → (run (rand_lfsr64 random access_mask) c).mem random ≡ lfsr_step (c.mem random)
unfolding run rand_lfsr64 enter_round
drawn_word random access_mask c h mask =
    Drawn.seed (rand_lfsr64-Drawn 0 random access_mask c h mask)

-- With its mask in rcx, and a seed that is a word: the draw loses nothing, the old seed can be
-- computed from the new one, so that different seeds stay different; and the new seed is a word
-- again.
pub rand_lfsr64_reversible :
    (random access_mask : ℕ) (c : Cpu)
    → random < 2 ^ 64
    → c.rcx ≡ lfsr_mask
    → c.mem random < 2 ^ 64
    → (lfsr_back ((run (rand_lfsr64 random access_mask) c).mem random) ≡ c.mem random)
      × ((run (rand_lfsr64 random access_mask) c).mem random < 2 ^ 64)
rand_lfsr64_reversible random access_mask c h mask fits =
    rw (drawn_word random access_mask c h mask)
      (lfsr_back-lfsr_step (c.mem random) fits, lfsr_step-lt (c.mem random) fits)

-- With its mask in rcx, the draw never turns a seed other than 0 into 0, from which it would draw
-- nothing but 0.
pub rand_lfsr64_nonzero :
    (random access_mask : ℕ) (c : Cpu)
    → random < 2 ^ 64
    → c.rcx ≡ lfsr_mask
    → c.mem random < 2 ^ 64
    → c.mem random ≢ 0
    → (run (rand_lfsr64 random access_mask) c).mem random ≢ 0
rand_lfsr64_nonzero random access_mask c h mask fits ne =
    rw (drawn_word random access_mask c h mask) (lfsr_step_nonzero (c.mem random) fits ne)
