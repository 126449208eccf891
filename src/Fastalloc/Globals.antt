-- ===== src/Fastalloc/Globals.antt =====
-- The global pointers of fastallocate/fastalloc.cpp and the functions on them, and
-- `init_fast_allocator` of the copy in pm_study/src/fastalloc.cpp, whose other functions on the
-- pointers have the same text. The objects that `new` makes have uninitialised arrays: `dram_slots
-- k` and `nvm_slots k` are their contents where k regions have been handed out. `none` is undefined
-- behaviour: a call through a null pointer or through one whose object is deleted.
pub mod Lives
pub mod Room
pub mod Protocol
pub mod Copy
use rw_sep.Prelude.{ℕ, Bool, true, false, Option, none, some, List, [], ◌∷◌, ◌++◌}
use rw_sep.Prelude.Loops.{◌>>=◌}
use rw_sep.Fastalloc.{Fastalloc, alloc_size, concurrency_alloc_size, constructed, init, alloc, free}

pub data Pointer : Type 0 where
  null : Pointer
  live : Fastalloc → Pointer
  dangling : Pointer

pub record Globals : Type 0 where
  pub myallocator : Pointer
  pub concurrency_myallocator : Pointer
  -- How many regions the system has handed out.
  pub regions : ℕ

-- As static storage begins.
abbrev pub unset : ℕ → Globals
unset regions = record {
  myallocator = Pointer.null;
  concurrency_myallocator = Pointer.null;
  regions = regions;
}

-- `p->alloc(size, _on_nvm)`: the address, the pointer and the count of regions.
unfoldable pub alloc_through :
    (ℕ → ℕ) → (size : ℕ) → Bool → (regions : ℕ) → Pointer → Option (ℕ × Pointer × ℕ)
alloc_through os size on_nvm regions null = none
alloc_through os size on_nvm regions (live a) =
    alloc os size on_nvm (record a { regions = regions }) >>= λ r.
    some (r.0, Pointer.live r.1, r.1.regions)
alloc_through os size on_nvm regions dangling = none

-- `if (p != NULL) { p->free(); delete p; }`, with the pointers given to `delete[]`.
unfoldable pub free_through : Pointer → Option (List ℕ × Pointer)
free_through null = some ([], Pointer.null)
free_through (live a) = free a >>= λ r. some (r.0, Pointer.dangling)
free_through dangling = none

unfoldable pub fast_alloc : (ℕ → ℕ) → (size : ℕ) → Bool → Globals → Option (ℕ × Globals)
unfolding alloc_through
fast_alloc os size on_nvm g = alloc_through os size on_nvm g.regions g.myallocator >>= λ r.
    some (r.0, record g { myallocator = r.1; regions = r.2 })

unfoldable pub concurrency_fast_alloc : (ℕ → ℕ) → (size : ℕ) → Bool → Globals → Option (ℕ × Globals)
unfolding alloc_through
concurrency_fast_alloc os size on_nvm g =
    alloc_through os size on_nvm g.regions g.concurrency_myallocator >>= λ r.
    some (r.0, record g { concurrency_myallocator = r.1; regions = r.2 })

unfoldable pub fast_free : Globals → Option (List ℕ × Globals)
unfolding free_through
fast_free g = free_through g.myallocator >>= λ r. free_through g.concurrency_myallocator >>= λ c.
    some (r.0 ++ c.0, record g { myallocator = r.1; concurrency_myallocator = c.1 })

module _ (os : ℕ → ℕ) (dram_slots nvm_slots : ℕ → List ℕ) where
  -- `new fastalloc` or `new concurrency_fastalloc`, and `init()` with the size of its class.
  unfoldable pub create : (size regions : ℕ) → Option Fastalloc
  create size regions = init os size (constructed (dram_slots regions) (nvm_slots regions) regions)

  unfoldable pub init_fast_allocator : (multi_thread : Bool) → Globals → Option Globals
  unfolding create
  init_fast_allocator true g = create concurrency_alloc_size g.regions >>= λ a.
      some (record g { concurrency_myallocator = Pointer.live a; regions = a.regions })
  init_fast_allocator false g = create alloc_size g.regions >>= λ a.
      some (record g { myallocator = Pointer.live a; regions = a.regions })

  -- `init_fast_allocator` of pm_study, where the parameter and the test are commented out.
  unfoldable pub init_both : Globals → Option Globals
  unfolding create
  init_both g = create concurrency_alloc_size g.regions >>= λ c.
      create alloc_size c.regions >>= λ a. some (record {
        myallocator = Pointer.live a;
        concurrency_myallocator = Pointer.live c;
        regions = a.regions;
      })
