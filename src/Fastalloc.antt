-- ===== src/Fastalloc.antt =====
-- The bump allocator of fastallocate/fastalloc.h and fastallocate/fastalloc.cpp. The system is a
-- parameter: `os k` is the address of the k-th region that `new char[]` or `mmap` returns. Names of
-- files, `open` and `posix_fallocate` have no part in the result and are left out, as are their
-- failures, which the code does not act on. `none` is undefined behaviour: an index outside an
-- array, a null or dangling pointer. The fields dram, dram_curr, dram_left and dram_cnt are
-- `dram.slots`, `dram.curr`, `dram.left` and `dram.cnt`, and likewise for nvm.
pub mod Rounding
pub mod Blocks
pub mod Disjoint
pub mod Limits
pub mod Free
pub mod Globals
use rw_sep.Prelude.{
  ℕ, zero, suc, ◌+◌, ◌-◌, ◌*◌, ◌/◌, ◌%◌, ◌^◌, Bool, true, false, Option, none, some, List, [], ◌∷◌,
  ltb, ◌==◌, get_elem?, set, if◌then◌else◌,
}
use rw_sep.Prelude.Loops.{◌>>=◌}
use rw_sep.Machine.{add64, sub64}

-- ALLOC_SIZE, CONCURRENCY_ALLOC_SIZE, and the length of the arrays of pointers.
abbrev pub alloc_size : ℕ
alloc_size = 4 * 2 ^ 30

abbrev pub concurrency_alloc_size : ℕ
concurrency_alloc_size = 4 * 2 ^ 28

abbrev pub max_slots : ℕ
max_slots = 100

pub record Side : Type 0 where
  pub slots : List ℕ
  pub curr : ℕ
  pub left : ℕ
  pub cnt : ℕ

pub record Fastalloc : Type 0 where
  pub dram : Side
  pub nvm : Side
  -- How many regions the system has handed out.
  pub regions : ℕ

-- The members as their initialisers leave them. The arrays are not initialised.
unfoldable pub constructed : (dram_slots nvm_slots : List ℕ) → (regions : ℕ) → Fastalloc
constructed dram_slots nvm_slots regions = record {
  dram = record { slots = dram_slots; curr = 0; left = 0; cnt = 0 };
  nvm = record { slots = nvm_slots; curr = 0; left = 0; cnt = 0 };
  regions = regions;
}

-- `x[x_cnt] = base; x_curr = x[x_cnt]; x_left = size; x_cnt++`.
unfoldable pub open_arena : ℕ → ℕ → Side → Option Side
open_arena base size s =
    if ltb s.cnt max_slots
    then some (record { slots = set s.slots s.cnt base; curr = base; left = size; cnt = s.cnt + 1 })
    else none

-- `size = size / 64 * 64 + (!!(size % 64)) * 64` on uint64_t.
unfoldable pub round_up : ℕ → ℕ
round_up size = add64 (size / 64 * 64) ((if size % 64 == 0 then 0 else 1) * 64)

-- `x_left -= size; tmp = x_curr; x_curr = x_curr + size; return tmp`.
unfoldable pub bump : ℕ → Side → ℕ × Side
bump size s = (s.curr, record s { left = sub64 s.left size; curr = add64 s.curr size })

-- The branch of one side: a new arena where what is left does not suffice.
unfoldable pub alloc_side : (ℕ → ℕ) → (regions size : ℕ) → Side → Option (ℕ × Side × ℕ)
unfolding open_arena bump
alloc_side os regions size s =
    if ltb s.left size
    then (open_arena (os regions) alloc_size s >>= λ s'.
        some ((bump size s').0, (bump size s').1, regions + 1))
    else some ((bump size s).0, (bump size s).1, regions)

unfoldable pub alloc : (ℕ → ℕ) → (size : ℕ) → (on_nvm : Bool) → Fastalloc → Option (ℕ × Fastalloc)
unfolding alloc_side round_up
alloc os size true a = alloc_side os a.regions (round_up size) a.nvm >>= λ r.
    some (r.0, record a { nvm = r.1; regions = r.2 })
alloc os size false a = alloc_side os a.regions (round_up size) a.dram >>= λ r.
    some (r.0, record a { dram = r.1; regions = r.2 })

-- `init` of both classes, on Linux, where `size` is ALLOC_SIZE or CONCURRENCY_ALLOC_SIZE. The
-- region that `new` gives for nvm is overwritten by the one that `mmap` gives.
unfoldable pub init : (ℕ → ℕ) → (size : ℕ) → Fastalloc → Option Fastalloc
unfolding open_arena
init os size a = open_arena (os a.regions) size a.dram >>= λ d.
    open_arena (os (a.regions + 2)) size a.nvm >>= λ n.
    some (record { dram = d; nvm = n; regions = a.regions + 3 })

-- The loop of `free`: the pointers given to `delete[]`.
unfoldable pub freed_slots : (left i : ℕ) → List ℕ → Option (List ℕ)
freed_slots zero i slots = some []
freed_slots (suc left) i slots =
    get_elem? slots i >>= λ p. freed_slots left (i + 1) slots >>= λ ps. some (p ∷ ps)

unfoldable pub free : Fastalloc → Option (List ℕ × Fastalloc)
unfolding freed_slots
free a = freed_slots a.dram.cnt 0 a.dram.slots >>= λ ps.
    some (
      ps,
      record a { dram = record { slots = a.dram.slots; curr = 0; left = 0; cnt = a.dram.cnt } },
    )
