-- ===== src/Fastalloc/Globals/Lives.antt =====
-- The calls on the global pointers of fastallocate/fastalloc.cpp, and the protocol that they are to
-- follow.
use rw_sep.Prelude.{ℕ, Bool, true, false, Option, none, some, List, [], ◌∷◌}
use rw_sep.Prelude.Loops.{◌>>=◌}
use rw_sep.Fastalloc.Globals.{
  Pointer, Globals, fast_alloc, concurrency_fast_alloc, fast_free, init_fast_allocator,
}

-- What became of the object of a pointer.
pub data Life : Type 0 where
  absent usable gone : Life

abbrev pub life : Pointer → Life
life Pointer.null = Life.absent
life (Pointer.live a) = Life.usable
life Pointer.dangling = Life.gone

abbrev pub lives : Globals → Life × Life
lives g = (life g.myallocator, life g.concurrency_myallocator)

abbrev pub used : Life → Option Life
used absent = none
used usable = some Life.usable
used gone = none

abbrev pub ended : Life → Option Life
ended absent = some Life.absent
ended usable = some Life.gone
ended gone = none

-- The calls that a client makes.
pub data Call : Type 0 where
  start : (multi_thread : Bool) → Call
  request concurrency_request : (size : ℕ) (on_nvm : Bool) → Call
  free : Call

-- Their protocol, on the lives of the two objects.
abbrev pub follow : Call → Life × Life → Option (Life × Life)
follow (start true) l = some (l.0, Life.usable)
follow (start false) l = some (Life.usable, l.1)
follow (request size on_nvm) l = used l.0 >>= λ m. some (m, l.1)
follow (concurrency_request size on_nvm) l = used l.1 >>= λ c. some (l.0, c)
follow free l = ended l.0 >>= λ m. ended l.1 >>= λ c. some (m, c)

abbrev pub follow_all : List Call → Life × Life → Option (Life × Life)
follow_all [] l = some l
follow_all (c ∷ cs) l = follow c l >>= follow_all cs

module _ (os : ℕ → ℕ) (dram_slots nvm_slots : ℕ → List ℕ) where
  -- A call, its result left aside.
  unfoldable pub step : Call → Globals → Option Globals
  unfolding fast_alloc concurrency_fast_alloc fast_free init_fast_allocator
  step (start multi_thread) g = init_fast_allocator os dram_slots nvm_slots multi_thread g
  step (request size on_nvm) g = fast_alloc os size on_nvm g >>= λ r. some r.1
  step (concurrency_request size on_nvm) g =
      concurrency_fast_alloc os size on_nvm g >>= λ r. some r.1
  step free g = fast_free g >>= λ r. some r.1

  unfoldable pub run : List Call → Globals → Option Globals
  unfolding step
  run [] g = some g
  run (c ∷ cs) g = step c g >>= run cs
