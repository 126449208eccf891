-- ===== src/Examples/Random.antt =====
-- The theorems on the random accesses of OptaneStudy/src/memaccess.c at concrete inputs.
use rw_sep.Prelude.{ℕ, ◌*◌, ◌^◌, ◌<◌, ◌≡◌, refl, inl, arith, bit_and}
use rw_sep.Prelude.Bits.{bit_and-le}
use native.Mathlib.Nat.{le_refl}
use rw_sep.Machine.{Cpu, add64, run}
use rw_sep.Memaccess.Advance.{store_flush_line}
use rw_sep.Memaccess.Rounds.{Completes}
use rw_sep.Memaccess.Random.{lfsr_mask, rand_lfsr64, sizebw_storeclwb}
use rw_sep.Memaccess.Random.Lfsr.{lfsr_back}
use rw_sep.Memaccess.Random.Draws.{eight, Outside}
use rw_sep.Memaccess.Random.Loops.{blocks, random_accesses}
use rw_sep.Memaccess.Random.Kernels.{sizebw_storeclwb-Completes}
use rw_sep.Memaccess.Random.Seeds.{rand_lfsr64_reversible}
use rw_sep.Examples.{boot}

-- The seed is 7, wherever it lies, and the mask of the shift register is in place.
abbrev seeded : Cpu
seeded = record boot { rcx = lfsr_mask; mem = λ x. 7 }

seed-Outside :
    (word j : ℕ) → j < blocks 1024 → Outside 64 (add64 (add64 4096 (bit_and word 0xfc0)) (512 * j))
seed-Outside word j h k l =
    let bound = bit_and-le word word 0xfc0 (le_refl word) in inl (omega (arith, bound))

sizebw_storeclwb-Completes_example :
    Completes
      (sizebw_storeclwb 2000 4096 1024 10 64 0xfc0 seeded)
      seeded
      (random_accesses (eight store_flush_line) 4096 1024 10 64 0xfc0 (seeded.mem 64))
sizebw_storeclwb-Completes_example =
    sizebw_storeclwb-Completes 4096 1024 10 64 0xfc0 2000 seeded refl refl (omega arith)
      (omega arith) (omega arith) (omega arith) (omega arith) seed-Outside

rand_lfsr64_reversible_example :
    (lfsr_back ((run (rand_lfsr64 64 0xfc0) seeded).mem 64) ≡ seeded.mem 64)
    × ((run (rand_lfsr64 64 0xfc0) seeded).mem 64 < 2 ^ 64)
rand_lfsr64_reversible_example =
    rand_lfsr64_reversible 64 0xfc0 seeded (omega arith) refl (omega arith)
