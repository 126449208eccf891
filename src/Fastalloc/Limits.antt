-- ===== src/Fastalloc/Limits.antt =====
-- Where `fastalloc` (fastallocate/fastalloc.cpp) goes wrong: requests above the size of a region.
use rw_sep.Prelude.{ℕ, ◌+◌, ◌^◌, ◌≤◌, ◌<◌, ◌≡◌, true, false, none, some, ltb, set, arith}
use rw_sep.Machine.{add64, sub64}
use rw_sep.Fastalloc.{
  Fastalloc, alloc_size, max_slots, alloc, alloc_side, open_arena, bump, round_up,
}

-- A request on persistent memory that is above ALLOC_SIZE and below 2 ^ 63 after rounding, and above
-- what is left, with a slot free for a new arena and a region that ends, with the request put at its
-- start, below 2 ^ 64: it is granted a region of ALLOC_SIZE bytes all the same, what is left wraps
-- round to more than ALLOC_SIZE, and any next request of at most ALLOC_SIZE bytes after rounding is
-- granted beyond the end of that region.
pub alloc_overruns :
    (os : ℕ → ℕ) (size next : ℕ) (a : Fastalloc)
    → alloc_size < round_up size
    → round_up size < 2 ^ 63
    → round_up next ≤ alloc_size
    → a.nvm.left < round_up size
    → a.nvm.cnt < max_slots
    → os a.regions + round_up size < 2 ^ 64
    → (a' : Fastalloc) × (a'' : Fastalloc) × (alloc os size true a ≡ some (os a.regions, a'))
      × (alloc_size < a'.nvm.left)
      × (alloc os next true a' ≡ some (os a.regions + round_up size, a''))
unfolding alloc alloc_side open_arena bump
alloc_overruns os size next a huge small modest short room bounded =
    let test : ltb a.nvm.left (round_up size) ≡ true = ground arith in
    let slot : ltb a.nvm.cnt max_slots ≡ true = ground arith in
    let left = sub64 alloc_size (round_up size) in
    let over : ltb left (round_up next) ≡ false = ground arith in
    let curr : add64 (os a.regions) (round_up size) ≡ os a.regions + round_up size = omega arith in
    let a' : Fastalloc = record a {
      nvm = record {
        slots = set a.nvm.slots a.nvm.cnt (os a.regions);
        curr = add64 (os a.regions) (round_up size);
        left = left;
        cnt = a.nvm.cnt + 1;
      };
      regions = a.regions + 1;
    } in
    (
      a',
      record a' {
        nvm = record (a'.nvm) {
          left = sub64 left (round_up next);
          curr = add64 (add64 (os a.regions) (round_up size)) (round_up next);
        };
      },
      rw (test, slot),
      omega arith,
      rw (over, curr),
    )

-- With all 100 slots in use, a request that needs a new arena writes outside the array of pointers.
pub alloc_slots_exhausted :
    (os : ℕ → ℕ) (size : ℕ) (a : Fastalloc)
    → a.nvm.left < round_up size
    → max_slots ≤ a.nvm.cnt
    → alloc os size true a ≡ none
unfolding alloc alloc_side open_arena
alloc_slots_exhausted os size a short full =
    let test : ltb a.nvm.left (round_up size) ≡ true = ground arith in
    let slot : ltb a.nvm.cnt max_slots ≡ false = ground arith in rw (test, slot)
