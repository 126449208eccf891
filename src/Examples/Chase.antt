-- ===== src/Examples/Chase.antt =====
-- The theorems on the walk of OptaneStudy/src/memaccess.c over an index, at concrete inputs.
use rw_sep.Prelude.{
  ℕ, zero, suc, ◌-◌, ◌*◌, ◌/◌, ◌<◌, ◌≡◌, refl, ap, inr, ◌==◌, if◌then◌else◌, some, List, [], ◌∷◌,
  concat_upto, arith,
}
use rw_sep.Machine.{Cpu, add64}
use rw_sep.Memaccess.Rounds.{Completes, at_least_one}
use rw_sep.Memaccess.Chase.{chasing_storeclwb}
use rw_sep.Memaccess.Chase.Walk.{Holds, Clear}
use rw_sep.Memaccess.Chase.Cycle.{link, visited, chasing_storeclwb-IsCycle}
use rw_sep.Chasing.{Outcome, init_chasing_index}
use rw_sep.Chasing.Cycle.{IsCycle}
use rw_sep.Examples.{boot}

-- Position 0 leads to 1, and 1 back to 0.
abbrev swap : ℕ → ℕ
swap p = if p == 0 then 1 else 0

abbrev indexed_boot : Cpu
indexed_boot = record boot { mem = λ x. if x == 65536 then 1 else 0 }

swap-Holds : Holds 2 65536 swap indexed_boot
swap-Holds zero h = refl
swap-Holds (suc zero) h = refl
swap-Holds (suc (suc p)) h = absurd (omega arith)

swap_closed : (p : ℕ) → p < 2 → swap p < 2
swap_closed p h = ground arith

rows-Clear : (i : ℕ) → i < at_least_one 2 → Clear 2 65536 (add64 4096 (256 * i))
rows-Clear i h p q b d = inr (omega arith)

-- The index that `init_chasing_index` builds from the numbers 0, 1, 2, …
abbrev ring : List ℕ
ring = 1 ∷ 2 ∷ 3 ∷ 0 ∷ []

ring_built : init_chasing_index (λ k. some k) 9 4 0 ≡ Outcome.done ring 4
unfolding init_chasing_index
ring_built = refl

ring_closed : (p : ℕ) → p < 4 → link ring p < 4
ring_closed zero h = omega arith
ring_closed (suc zero) h = omega arith
ring_closed (suc (suc zero)) h = omega arith
ring_closed (suc (suc (suc zero))) h = omega arith
ring_closed (suc (suc (suc (suc p)))) h = absurd (omega arith)

abbrev ring_boot : Cpu
ring_boot = record boot { mem = λ x. link ring ((x - 65536) / 8) }

ring-Holds : Holds 4 65536 (link ring) ring_boot
ring-Holds p h = ap (link ring) (omega arith)

grid-Clear : (i : ℕ) → i < at_least_one 2 → Clear 4 65536 (add64 4096 (256 * i))
grid-Clear i h p q b d = inr (omega arith)

chasing_storeclwb-IsCycle_example :
    (trail : List ℕ) × IsCycle 4 ring trail
    × Completes
        (chasing_storeclwb 300 4096 (64 * 4) 256 2 65536 ring_boot)
        ring_boot
        (concat_upto (visited 4096 256 65536 trail) (at_least_one 2))
chasing_storeclwb-IsCycle_example =
    chasing_storeclwb-IsCycle (λ k. some k) 9 0 3 4 ring ring_built 4096 256 2 65536 300 ring_boot
      refl refl ring_closed (omega arith) (λ i h. omega arith) grid-Clear ring-Holds (omega arith)
      (omega arith) (omega arith) (omega arith)
