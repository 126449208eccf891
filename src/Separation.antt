-- ===== src/Separation.antt =====
-- The benchmark of fastallocate/rw_sep.cpp: the same reads and non-temporal writes of allocated
-- objects, mixed one by one, or separated into a phase of reads and a phase of writes. The objects
-- a[0], a[1], … are distinct, and only data[0] of each is used; `objects` holds these words. `none`
-- is an access outside the array `a`, or a division by zero. The clock, the file of results and the sums of times are left
-- out.
pub mod Passes
pub mod Rounds
pub mod Order
pub mod Sweep
use rw_sep.Prelude.{
  ℕ, zero, suc, ◌+◌, ◌-◌, ◌*◌, ◌/◌, ◌%◌, ◌^◌, Option, none, some, List, [], ◌∷◌, ◌++◌, get_elem?,
  set, ◌==◌, if◌then◌else◌,
}
use rw_sep.Prelude.Loops.{◌>>=◌}
use rw_sep.Machine.{add64}

pub data Access : Type 0 where
  read stream : (object : ℕ) → Access
  fence : Access

pub record Bench : Type 0 where
  pub objects : List ℕ
  pub log : List Access

-- N_RW.
abbrev pub n_rw : ℕ
n_rw = 100000

-- The number of objects that are allocated for the argument sep_grn, (sep_grn - 1) * 4 + 1. For 0,
-- `times` is -3, and no object is allocated.
unfoldable pub times : ℕ → ℕ
times sep_grn = sep_grn * 4 - 3

-- `if (a[k]->data[0]);`.
unfoldable pub read_object : ℕ → Bench → Option Bench
read_object k s =
    get_elem? s.objects k >>= λ v. some (record s { log = s.log ++ Access.read k ∷ [] })

-- What _mm_stream_si32 leaves of the 64-bit word `old`: its low half is that of `new`.
unfoldable pub stream_si32 : (old new : ℕ) → ℕ
stream_si32 old new = old / 2 ^ 32 * 2 ^ 32 + new % 2 ^ 32

-- `_mm_stream_si32((int *)&a[k]->data[0], a[k]->data[0] + 1)`, with the read of its operand.
unfoldable pub stream_object : ℕ → Bench → Option Bench
unfolding stream_si32
stream_object k s = get_elem? s.objects k >>= λ v. some (record {
  objects = set s.objects k (stream_si32 v (add64 v 1));
  log = s.log ++ Access.read k ∷ Access.stream k ∷ [];
})

-- The inner loop of wr_mix, with `left` rounds to go from `j` on.
unfoldable pub mix_loop : (left j : ℕ) → Bench → Option Bench
unfolding read_object stream_object
mix_loop zero j s = some s
mix_loop (suc left) j s =
    read_object (4 * (j + 0)) s >>= stream_object (4 * j) >>= mix_loop left (j + 1)

-- The two inner loops of wr_sep. They advance by 2.
unfoldable pub read_pairs : (left j : ℕ) → Bench → Option Bench
unfolding read_object
read_pairs zero j s = some s
read_pairs (suc left) j s =
    read_object (4 * j) s >>= read_object (4 * (j + 1)) >>= read_pairs left (j + 2)

unfoldable pub stream_pairs : (left j : ℕ) → Bench → Option Bench
unfolding stream_object
stream_pairs zero j s = some s
stream_pairs (suc left) j s =
    stream_object (4 * j) s >>= stream_object (4 * (j + 1)) >>= stream_pairs left (j + 2)

unfoldable pub mix_round : (sep_grn : ℕ) → Bench → Option Bench
unfolding mix_loop
mix_round sep_grn s = mix_loop sep_grn 0 s

unfoldable pub sep_round : (sep_grn : ℕ) → Bench → Option Bench
unfolding read_pairs stream_pairs
sep_round sep_grn s = read_pairs ((sep_grn + 1) / 2) 0 s >>= stream_pairs ((sep_grn + 1) / 2) 0

-- `left` runs of a body.
unfoldable pub rounds : ℕ → (Bench → Option Bench) → Bench → Option Bench
rounds zero body s = some s
rounds (suc left) body s = body s >>= rounds left body

-- `N_RW / sep_grn`.
unfoldable pub round_count : (sep_grn : ℕ) → Option ℕ
round_count sep_grn = if sep_grn == 0 then none else some (n_rw / sep_grn)

unfoldable pub wr_mix : (sep_grn : ℕ) → Bench → Option Bench
unfolding rounds mix_round round_count
wr_mix sep_grn s = round_count sep_grn >>= λ n. rounds n (mix_round sep_grn) s

unfoldable pub wr_sep : (sep_grn : ℕ) → Bench → Option Bench
unfolding rounds sep_round round_count
wr_sep sep_grn s = round_count sep_grn >>= λ n. rounds n (sep_round sep_grn) s

-- One round of the loop over `t`: wr_mix, a fence, wr_sep.
unfoldable pub measure : (sep_grn : ℕ) → Bench → Option Bench
unfolding wr_mix wr_sep
measure sep_grn s =
    wr_mix sep_grn s >>= λ s'. wr_sep sep_grn (record s' { log = s'.log ++ Access.fence ∷ [] })

-- The loop over sep_grn, with `left` doublings to go. From 16 on there are 6 below 1024.
unfoldable pub sweep_from : (left sep_grn test_loop : ℕ) → Bench → Option Bench
unfolding rounds measure
sweep_from zero sep_grn test_loop s = some s
sweep_from (suc left) sep_grn test_loop s =
    rounds test_loop (measure sep_grn) s >>= sweep_from left (sep_grn * 2) test_loop

unfoldable pub sweep : (test_loop : ℕ) → Bench → Option Bench
unfolding sweep_from
sweep test_loop s = sweep_from 6 16 test_loop s
