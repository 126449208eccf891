-- ===== src/Channels.antt =====
-- The allocator of OptaneStudy/src/fastalloc.h and OptaneStudy/src/fastalloc.cpp, whose memory is
-- mapped from files of one channel. As in Fastalloc, the system is a parameter: `os k` is the
-- address of the k-th region that `new char[]` or `mmap` returns, and failures of `open` and
-- `posix_fallocate`, which the code does not act on, are left out. `none` is undefined behaviour.
pub mod Files
pub mod Pointers
use rw_sep.Prelude.{
  ℕ, ◌+◌, Bool, true, false, Option, none, some, List, [], ◌∷◌, ◌++◌, ltb, leb, if◌then◌else◌,
}
use rw_sep.Prelude.Loops.{◌>>=◌}
use rw_sep.Fastalloc.{
  Side, alloc_size, concurrency_alloc_size, open_arena, bump, alloc_side, round_up, freed_slots,
}

-- "/mnt/aep<channel>/test", and then the numbers, printed with nothing between them.
pub record File : Type 0 where
  pub channel : ℕ
  pub numbers : List ℕ

pub record Allocator : Type 0 where
  pub channel : ℕ
  pub dram : Side
  pub nvm : Side
  -- How many regions the system has handed out, and the files that have been mapped.
  pub regions : ℕ
  pub files : List File

-- The members as their initialisers leave them. The arrays and `channel` are not initialised.
unfoldable pub constructed : (channel : ℕ) (dram_slots nvm_slots : List ℕ) (regions : ℕ) → Allocator
constructed channel dram_slots nvm_slots regions = record {
  channel = channel;
  dram = record { slots = dram_slots; curr = 0; left = 0; cnt = 0 };
  nvm = record { slots = nvm_slots; curr = 0; left = 0; cnt = 0 };
  regions = regions;
  files = [];
}

-- An arena of `size` bytes on `file`. The region that `new` gives is overwritten by that of `mmap`.
unfoldable pub open_nvm : (ℕ → ℕ) → (size : ℕ) → File → Allocator → Option Allocator
unfolding open_arena
open_nvm os size file a = open_arena (os (a.regions + 1)) size a.nvm >>= λ n.
    some (record a { nvm = n; regions = a.regions + 2; files = a.files ++ file ∷ [] })

-- What `init` does after it has set the channel.
unfoldable pub open_both : (ℕ → ℕ) → (size : ℕ) → File → Allocator → Option Allocator
unfolding open_arena open_nvm
open_both os size file a = open_arena (os a.regions) size a.dram >>= λ d.
    open_nvm os size file (record a { dram = d; regions = a.regions + 1 })

pub data Started : Type 0 where
  -- `exit(0)`.
  exited : Started
  started : Option Allocator → Started

-- `fastalloc::init`. The channel is the `int` as a 32-bit word, in which a negative one is large.
unfoldable pub init : (ℕ → ℕ) → (ch : ℕ) → Allocator → Started
unfolding open_both
init os ch a =
    if leb 4 ch
    then Started.exited
    else Started.started (
        open_both os alloc_size (record { channel = ch; numbers = a.nvm.cnt ∷ [] })
          (record a { channel = ch }))

-- `concurrency_fastalloc::init` on the thread `t`. Its parameter hides the member `channel`.
unfoldable pub concurrency_init : (ℕ → ℕ) → (t channel : ℕ) → Allocator → Option Allocator
unfolding open_both
concurrency_init os t channel a =
    open_both os concurrency_alloc_size (record { channel = channel; numbers = t ∷ a.nvm.cnt ∷ [] })
      a

-- The pointer that is returned and the allocator after it.
unfoldable pub bump_nvm : ℕ → Allocator → ℕ × Allocator
unfolding bump
bump_nvm size a = ((bump size a.nvm).0, record a { nvm = (bump size a.nvm).1 })

unfoldable pub alloc : (ℕ → ℕ) → (size : ℕ) → (on_nvm : Bool) → Allocator → Option (ℕ × Allocator)
unfolding open_nvm bump_nvm alloc_side round_up
alloc os size true a =
    if ltb a.nvm.left (round_up size)
    then (open_nvm os alloc_size (record { channel = a.channel; numbers = a.nvm.cnt ∷ [] }) a
        >>= λ a'. some (bump_nvm (round_up size) a'))
    else some (bump_nvm (round_up size) a)
alloc os size false a = alloc_side os a.regions (round_up size) a.dram >>= λ r.
    some (r.0, record a { dram = r.1; regions = r.2 })

-- `fastalloc::free`: the pointers given to `delete[]`.
unfoldable pub free : Allocator → Option (List ℕ × Allocator)
unfolding freed_slots
free a = freed_slots a.dram.cnt 0 a.dram.slots >>= λ ps.
    some (
      ps,
      record a { dram = record { slots = a.dram.slots; curr = 0; left = 0; cnt = a.dram.cnt } },
    )

-- `fast_free`, where `none` is the null pointer: the pointers given to `delete[]`.
unfoldable pub fast_free : Option Allocator → Option (List ℕ)
unfolding free
fast_free none = some []
fast_free (some a) = free a >>= λ r. some r.0
