-- ===== src/Fastalloc/Globals/Room.antt =====
-- Allocators of fastallocate/fastalloc.cpp whose arrays have room for more arenas.
use rw_sep.Prelude.{
  ℕ, suc, ◌+◌, ◌<◌, ◌≤◌, ◌≡◌, refl, ◌∙◌, Bool, true, false, Bool-cases, inl, inr, some, List,
  length, set, length-set, ltb, arith,
}
use rw_sep.Fastalloc.{
  Fastalloc, Side, max_slots, alloc_size, round_up, constructed, open_arena, bump, alloc_side,
  alloc, init,
}
use rw_sep.Fastalloc.Globals.{Pointer, null, live, dangling, create}

-- An allocator that has room for `k` arenas more.
pub record HasRoom (k : ℕ) (a : Fastalloc) : Type 0 where
  pub dram_slots : length a.dram.slots ≡ max_slots
  pub dram_room : a.dram.cnt + k ≤ max_slots
  pub nvm_room : a.nvm.cnt + k ≤ max_slots

abbrev pub PointerRoom : ℕ → Pointer → Type 0
PointerRoom k Pointer.null = Unit
PointerRoom k (Pointer.live a) = HasRoom k a
PointerRoom k Pointer.dangling = Unit

record Granted (os : ℕ → ℕ) (regions size : ℕ) (s : Side) : Type 0 where
  p : ℕ
  s' : Side
  regions' : ℕ
  returns : alloc_side os regions size s ≡ some (p, s', regions')
  one_more : s'.cnt ≤ s.cnt + 1
  same_size : length s'.slots ≡ length s.slots

alloc_side-Granted :
    (os : ℕ → ℕ) (regions size : ℕ) (s : Side) → s.cnt < max_slots → Granted os regions size s
unfolding alloc_side open_arena bump
alloc_side-Granted os regions size s room =
    let slot : ltb s.cnt max_slots ≡ true = ground arith in
    elim (Bool-cases (ltb s.left size)) [
      | inl full ↦ record {
        p = os regions;
        s' =
            (bump size (record {
              slots = set s.slots s.cnt (os regions);
              curr = os regions;
              left = alloc_size;
              cnt = s.cnt + 1;
            })).1;
        regions' = regions + 1;
        returns = rw (full, slot) refl;
        one_more = omega arith;
        same_size = length-set s.slots s.cnt (os regions);
      }
      | inr fits ↦ record {
        p = s.curr;
        s' = (bump size s).1;
        regions' = regions;
        returns = rw fits refl;
        one_more = omega arith;
        same_size = refl;
      }
    ]

pub alloc-HasRoom :
    (os : ℕ → ℕ) (size : ℕ) (on_nvm : Bool) (k : ℕ) (a : Fastalloc)
    → HasRoom (suc k) a
    → (p : ℕ) × (a' : Fastalloc) × (alloc os size on_nvm a ≡ some (p, a')) × HasRoom k a'
unfolding alloc
alloc-HasRoom os size true k a h =
    let g = alloc_side-Granted os a.regions (round_up size) a.nvm (omega (arith, h.nvm_room)) in
    (
      g.p,
      record a { nvm = g.s'; regions = g.regions' },
      rw g.returns refl,
      record {
        dram_slots = h.dram_slots;
        dram_room = omega (arith, h.dram_room);
        nvm_room = omega (arith, h.nvm_room, g.one_more);
      },
    )
alloc-HasRoom os size false k a h =
    let g = alloc_side-Granted os a.regions (round_up size) a.dram (omega (arith, h.dram_room)) in
    (
      g.p,
      record a { dram = g.s'; regions = g.regions' },
      rw g.returns refl,
      record {
        dram_slots = omega (arith, h.dram_slots, g.same_size);
        dram_room = omega (arith, h.dram_room, g.one_more);
        nvm_room = omega (arith, h.nvm_room);
      },
    )

-- Room for fewer arenas.
pub PointerRoom-less : (k : ℕ) (p : Pointer) → PointerRoom (suc k) p → PointerRoom k p
PointerRoom-less k null h = tt
PointerRoom-less k (live a) h = record {
  dram_slots = h.dram_slots;
  dram_room = omega (arith, h.dram_room);
  nvm_room = omega (arith, h.nvm_room);
}
PointerRoom-less k dangling h = tt

module _ (os : ℕ → ℕ) (dram_slots nvm_slots : ℕ → List ℕ) where
  pub create-HasRoom :
      (k size regions : ℕ)
      → length (dram_slots regions) ≡ max_slots
      → k < max_slots
      → (a : Fastalloc) × (create os dram_slots nvm_slots size regions ≡ some a) × HasRoom k a
  unfolding create init open_arena constructed
  create-HasRoom k size regions h room = (
    record {
      dram = record {
        slots = set (dram_slots regions) 0 (os regions);
        curr = os regions;
        left = size;
        cnt = 1;
      };
      nvm = record {
        slots = set (nvm_slots regions) 0 (os (regions + 2));
        curr = os (regions + 2);
        left = size;
        cnt = 1;
      };
      regions = regions + 3;
    },
    refl,
    record {
      dram_slots = length-set (dram_slots regions) 0 (os regions) ∙ h;
      dram_room = omega arith;
      nvm_room = omega arith;
    },
  )
