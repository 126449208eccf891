-- ===== src/Examples/Channels.antt =====
-- The theorems on OptaneStudy/src/fastalloc.cpp at concrete inputs.
use rw_sep.Prelude.{ℕ, ◌+◌, ◌≡◌, ◌≢◌, refl, some, List, [], ◌∷◌, replicate, ◌^◌, set, arith}
use rw_sep.Fastalloc.{Fastalloc, alloc_size, open_arena}
use rw_sep.Fastalloc
use rw_sep.Fastalloc.Disjoint
use rw_sep.Fastalloc.Disjoint.{Separate}
use rw_sep.Fastalloc.Blocks.{Block}
use rw_sep.Channels.{Allocator, Started, constructed, init, open_both, open_nvm}
use rw_sep.Channels.Pointers.{
  allocs, blocks_of, every_other, init-allocs_refines, init-allocs-Separate,
}
use rw_sep.Channels.Files.{Reached, by_init, files_upto, NoneShared, Reached_files}
use rw_sep.Examples.{in_a_row, in_a_row-IsSystem, fits}

abbrev slots : List ℕ
slots = replicate 100 0

init-allocs_refines_example :
    (a : Allocator) × (f : Fastalloc) × (init in_a_row 3 (constructed 0 slots slots 0)
      ≡ Started.started (some a))
    × (Fastalloc.init (every_other in_a_row 0) alloc_size (Fastalloc.constructed slots slots 0)
        ≡ some f)
    × ((sizes : List ℕ)
        → blocks_of (allocs in_a_row sizes a)
          ≡ blocks_of (Disjoint.allocs (every_other in_a_row 0) sizes f))
init-allocs_refines_example = init-allocs_refines in_a_row 3 0 slots slots 0 (omega arith)

init-allocs-Separate_example :
    (a : Allocator) × (blocks : List Block) × (a' : Allocator) × (init in_a_row 1
        (constructed 0 slots slots 0)
      ≡ Started.started (some a))
    × (allocs in_a_row (64 ∷ 100 ∷ 2 ^ 31 ∷ 2 ^ 31 ∷ []) a ≡ some (blocks, a'))
    × Separate blocks
init-allocs-Separate_example =
    init-allocs-Separate in_a_row 1 0 slots slots 0 (64 ∷ 100 ∷ 2 ^ 31 ∷ 2 ^ 31 ∷ []) 11
      (omega arith) in_a_row-IsSystem fits (omega arith) (omega arith)

-- What `init` gives for a channel.
abbrev opened : ℕ → Allocator
opened ch = record {
  channel = ch;
  dram = record {
    slots = set slots 0 (in_a_row 0);
    curr = in_a_row 0;
    left = alloc_size;
    cnt = 0 + 1;
  };
  nvm = record {
    slots = set slots 0 (in_a_row 2);
    curr = in_a_row 2;
    left = alloc_size;
    cnt = 0 + 1;
  };
  regions = 3;
  files = record { channel = ch; numbers = 0 ∷ [] } ∷ [];
}

opened-Reached_0 : Reached in_a_row 0 (opened 0)
unfolding init open_both open_nvm open_arena constructed
opened-Reached_0 = by_init 0 0 slots slots refl

opened-Reached_1 : Reached in_a_row 1 (opened 1)
unfolding init open_both open_nvm open_arena constructed
opened-Reached_1 = by_init 0 0 slots slots refl

Reached_files_example :
    ((opened 0).files ≡ files_upto 0 1)
    × ((opened 1).files ≡ files_upto 1 1)
    × (◌≢◌ {A = ℕ} 0 1 → NoneShared (opened 0).files (opened 1).files)
Reached_files_example =
    Reached_files in_a_row in_a_row 0 1 (opened 0) (opened 1) opened-Reached_0 opened-Reached_1
