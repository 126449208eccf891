-- ===== src/Fastalloc/Disjoint.antt =====
-- A run of requests to `fastalloc::alloc` (fastallocate/fastalloc.cpp), as rw_sep.cpp and the other
-- clients make them.
use rw_sep.Prelude.{
  ℕ, ◌+◌, ◌≤◌, ◌<◌, ◌≡◌, refl, true, Option, some, List, [], ◌∷◌, All, length, set, arith,
}
use rw_sep.Prelude.Loops.{◌>>=◌}
use rw_sep.Fastalloc.{
  Fastalloc, alloc_size, max_slots, alloc, round_up, init, constructed, open_arena,
}
use rw_sep.Fastalloc.Blocks.{
  Block, Apart, IsSystem, IsOpen, IsPlaced, placed-Apart, alloc_side-Granted, IsPlaced-later,
}

-- No two blocks of the list overlap.
abbrev pub Separate : List Block → Type 0
Separate [] = Unit
Separate (b ∷ bs) = All (Apart b) bs × Separate bs

-- A client's requests on persistent memory, one after another.
unfoldable pub allocs : (ℕ → ℕ) → List ℕ → Fastalloc → Option (List Block × Fastalloc)
allocs os [] a = some ([], a)
allocs os (size ∷ sizes) a = alloc os size true a >>= λ r. allocs os sizes r.1 >>= λ rest.
    some (record { start = r.0; bytes = round_up size } ∷ rest.0, rest.1)

module _ (os : ℕ → ℕ) (total : ℕ) (sys : IsSystem os total) where
  -- What a run yields: blocks that are separate, and apart from each block placed before.
  pub record Served (sizes : List ℕ) (r : ℕ) (a : Fastalloc) : Type 0 where
    pub blocks : List Block
    pub a' : Fastalloc
    pub returns : allocs os sizes a ≡ some (blocks, a')
    pub separate : Separate blocks
    pub apart : (b : Block) → IsPlaced os r a.nvm.curr b → All (Apart b) blocks

  allocs-Served_from :
      (sizes : List ℕ) (r : ℕ) (a : Fastalloc)
      → IsOpen os r a.nvm
      → r < a.regions
      → a.regions + length sizes ≤ total
      → All (λ n. round_up n ≤ alloc_size) sizes
      → a.nvm.cnt + length sizes ≤ max_slots
      → Served sizes r a
  unfolding allocs alloc
  allocs-Served_from [] r a o known supply fit room = record {
    blocks = [];
    a' = a;
    returns = refl;
    separate = tt;
    apart = λ b p. tt;
  }
  allocs-Served_from (size ∷ sizes) r a o known supply fit room =
      let g =
        alloc_side-Granted os total sys a.regions (round_up size) r a.nvm o known (omega arith)
          fit.0 (omega arith) in
      let a1 : Fastalloc = record a { nvm = g.s'; regions = g.regions' } in
      let rest =
        allocs-Served_from sizes g.r' a1 g.opened g.known (omega (arith, g.regions_used)) fit.1
          (omega (arith, g.slots_used)) in
      let new : Block = record { start = g.p; bytes = round_up size } in
      let new-IsPlaced : IsPlaced os g.r' g.s'.curr new = record {
        region = g.r';
        old = omega arith;
        above = g.at;
        within = omega (arith, g.ends, g.opened.within);
        below = λ e. omega (arith, g.ends);
      } in
      record {
        blocks = new ∷ rest.blocks;
        a' = rest.a';
        returns = rw (g.returns, rest.returns);
        separate = (rest.apart new new-IsPlaced, rest.separate);
        apart = λ b p. (
          placed-Apart os total sys g.r' g.p (round_up size) b
              (omega (arith, g.known, g.regions_used))
              (IsPlaced-later os total sys r a.nvm.curr g.r' g.p b p g.newer g.kept) g.at
              (omega (arith, g.ends, g.opened.within)),
          rest.apart b (
              IsPlaced-later os total sys r a.nvm.curr g.r' g.s'.curr b p g.newer
                (λ e. omega (arith, g.kept e, g.ends))),
        );
      }

  -- On a system with regions enough that do not overlap and end below 2 ^ 64: `init`, with arenas
  -- of either of its sizes, and then up to 99 requests on persistent memory, none above ALLOC_SIZE
  -- after rounding, all succeed, and no two of the blocks that they grant (their lengths rounded
  -- up) overlap.
  pub init-allocs :
      (dram_slots nvm_slots : List ℕ) (regions arena : ℕ) (sizes : List ℕ)
      → arena ≤ alloc_size
      → All (λ n. round_up n ≤ alloc_size) sizes
      → length sizes < max_slots
      → regions + 3 + length sizes ≤ total
      → (a : Fastalloc) × (blocks : List Block) × (a' : Fastalloc) × (init os arena
            (constructed dram_slots nvm_slots regions)
          ≡ some a)
        × (allocs os sizes a ≡ some (blocks, a'))
        × Separate blocks
  unfolding init open_arena constructed
  init-allocs dram_slots nvm_slots regions arena sizes small fit room supply =
      let a : Fastalloc = record {
        dram = record {
          slots = set dram_slots 0 (os regions);
          curr = os regions;
          left = arena;
          cnt = 0 + 1;
        };
        nvm = record {
          slots = set nvm_slots 0 (os (regions + 2));
          curr = os (regions + 2);
          left = arena;
          cnt = 0 + 1;
        };
        regions = regions + 3;
      } in
      let served =
        allocs-Served_from sizes (regions + 2) a
          (record { above = omega arith; within = omega arith }) (omega arith) supply fit
          (omega arith) in
      (a, served.blocks, served.a', refl, served.returns, served.separate)
