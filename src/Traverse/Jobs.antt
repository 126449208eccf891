-- ===== src/Traverse/Jobs.antt =====
-- How a run of pm_study/microbenchmark/lat.cpp divides the working set among its threads.
use native.Mathlib.Nat.{mul-le-mul_left, mul-div-le}
use rw_sep.Prelude.{
  ℕ, zero, suc, ◌+◌, ◌*◌, ◌/◌, ◌%◌, ◌^◌, ◌≤◌, ◌<◌, ◌≡◌, refl, ap, some, List, [], ◌∷◌, All, length,
  map, leb, inl, false, arith,
}
use rw_sep.Machine.{add64}
use rw_sep.Fastalloc.Blocks.{Block, Apart}
use rw_sep.Fastalloc.Disjoint.{Separate}
use rw_sep.Traverse.Runs.{Job, jobs_from, round_down, run}

-- The bytes of a thread's share.
abbrev pub block_of : Job → Block
block_of j = record { start = j.base_addr; bytes = j.wss }

-- A share of whole units that lies from `lo` up to `hi`.
pub record Within (lo hi : ℕ) (j : Job) : Type 0 where
  pub from : lo ≤ j.base_addr
  pub upto : j.base_addr + j.wss ≤ hi
  pub whole : j.wss % 256 ≡ 0

share : (wss threads : ℕ) → threads * round_down (wss / threads) ≤ wss
unfolding round_down
share wss threads =
    let most : wss / threads / 256 * 256 ≤ wss / threads = omega arith in
    omega (arith, mul-le-mul_left threads most, mul-div-le wss threads)

-- The shares of thread `tid` and the following ones, where these have room.
jobs_from-Within :
    (lo hi addr t tid left : ℕ)
    → t % 256 ≡ 0
    → lo ≤ addr + tid * t
    → addr + tid * t + left * t ≤ hi
    → hi < 2 ^ 64
    → All (Within lo hi) (jobs_from addr t tid left)
unfolding jobs_from
jobs_from-Within lo hi addr t tid zero whole from upto small = tt
jobs_from-Within lo hi addr t tid (suc left) whole from upto small =
    let next : (tid + 1) * t ≡ tid * t + t = grind arith in
    let more : suc left * t ≡ left * t + t = grind arith in
    (
      record { from = omega (arith, more); upto = omega (arith, more); whole = whole },
      jobs_from-Within lo hi addr t (tid + 1) left whole (omega (arith, next))
          (omega (arith, next, more)) small,
    )

Within-Apart :
    (hi : ℕ) (j : Job) (js : List Job)
    → All (Within (j.base_addr + j.wss) hi) js
    → All (Apart (block_of j)) (map block_of js)
Within-Apart hi j [] h = tt
Within-Apart hi j (k ∷ js) h = (inl h.0.from, Within-Apart hi j js h.1)

jobs_from-Separate :
    (hi addr t tid left : ℕ)
    → t % 256 ≡ 0
    → addr + tid * t + left * t ≤ hi
    → hi < 2 ^ 64
    → Separate (map block_of (jobs_from addr t tid left))
unfolding jobs_from
jobs_from-Separate hi addr t tid zero whole upto small = tt
jobs_from-Separate hi addr t tid (suc left) whole upto small =
    let next : (tid + 1) * t ≡ tid * t + t = grind arith in
    let more : suc left * t ≡ left * t + t = grind arith in
    let room : addr + (tid + 1) * t + left * t ≤ hi = omega (arith, next, more) in
    (
      Within-Apart hi (record { base_addr = add64 addr (tid * t); wss = t })
          (jobs_from addr t (tid + 1) left)
          (jobs_from-Within (add64 addr (tid * t) + t) hi addr t (tid + 1) left whole
            (omega (arith, next, more)) room small),
      jobs_from-Separate hi addr t (tid + 1) left whole room small,
    )

length-jobs_from : (addr t tid left : ℕ) → length (jobs_from addr t tid left) ≡ left
unfolding jobs_from
length-jobs_from addr t tid zero = refl
length-jobs_from addr t tid (suc left) = ap suc (length-jobs_from addr t (tid + 1) left)

-- With a working set below max_size that does not wrap round: `run` gives each thread a share of
-- whole units of 256 bytes within the working set, and no two shares overlap.
pub run_divides :
    (addr max_size wss threads : ℕ)
    → wss < max_size
    → addr + wss < 2 ^ 64
    → (jobs : List Job) × (run addr max_size wss threads ≡ some jobs)
      × (length jobs ≡ threads)
      × Separate (map block_of jobs)
      × All (Within addr (addr + wss)) jobs
unfolding run
run_divides addr max_size wss threads fits small =
    let test : leb max_size wss ≡ false = ground arith in
    let t = round_down (wss / threads) in
    let whole : t % 256 ≡ 0 = unfold round_down in omega arith in
    let first : zero * t ≡ zero = omega arith in
    let room = share wss threads in
    (
      jobs_from addr t 0 threads,
      rw (test, run) refl,
      length-jobs_from addr t 0 threads,
      jobs_from-Separate (addr + wss) addr t 0 threads whole (omega (arith, first)) small,
      jobs_from-Within addr (addr + wss) addr t 0 threads whole (omega (arith, first))
          (omega (arith, first)) small,
    )
