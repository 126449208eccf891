-- ===== src/Channels/Pointers.antt =====
-- The allocator of OptaneStudy/src/fastalloc.cpp against that of fastallocate/fastalloc.cpp: on
-- persistent memory they grant the same blocks, from systems that differ by the regions that the
-- former discards.
use rw_sep.Prelude.{
  ℕ, ◌+◌, ◌-◌, ◌*◌, ◌≤◌, ◌<◌, ◌≡◌, inl, inr, refl, ap, ◌∙◌, sym, true, false, Bool-cases, Option,
  none, some, List, [], ◌∷◌, ◌++◌, All, length, set, ltb, leb, if◌then◌else◌, arith,
}
use rw_sep.Prelude.Loops.{◌>>=◌}
use rw_sep.Fastalloc.{
  Fastalloc, Side, alloc_size, max_slots, round_up, open_arena, bump, alloc_side,
}
use rw_sep.Fastalloc
use rw_sep.Fastalloc.Blocks.{Block, IsSystem}
use rw_sep.Fastalloc.Disjoint
use rw_sep.Fastalloc.Disjoint.{Separate}
use rw_sep.Channels.{
  Allocator, File, Started, constructed, open_nvm, open_both, bump_nvm, init, alloc,
}

-- A client's requests on persistent memory, one after another.
unfoldable pub allocs : (ℕ → ℕ) → List ℕ → Allocator → Option (List Block × Allocator)
allocs os [] a = some ([], a)
allocs os (size ∷ sizes) a = alloc os size true a >>= λ r. allocs os sizes r.1 >>= λ rest.
    some (record { start = r.0; bytes = round_up size } ∷ rest.0, rest.1)

-- The blocks of a run, without the allocator after it.
abbrev pub blocks_of {ℓ} : {A : Type ℓ} → Option (List Block × A) → Option (List Block)
blocks_of none = none
blocks_of (some r) = some r.0

abbrev with_block : Block → Option (List Block) → Option (List Block)
with_block b none = none
with_block b (some bs) = some (b ∷ bs)

blocks_of_first {ℓ} :
    {A : Type ℓ} (b : Block) (m : Option (List Block × A))
    → blocks_of (m >>= λ rest. some (b ∷ rest.0, rest.1)) ≡ with_block b (blocks_of m)
blocks_of_first b none = refl
blocks_of_first b (some r) = refl

-- Runs that agree after a block agree with it.
then_agree {ℓ κ} :
    {A : Type ℓ} {B : Type κ} (b : Block) (m : Option (List Block × A))
    (n : Option (List Block × B))
    → blocks_of m ≡ blocks_of n
    → blocks_of (m >>= λ rest. some (b ∷ rest.0, rest.1))
      ≡ blocks_of (n >>= λ rest. some (b ∷ rest.0, rest.1))
then_agree b m n e = blocks_of_first b m ∙ ap (with_block b) e ∙ sym (blocks_of_first b n)

-- The regions in the order in which this allocator uses them for persistent memory: from the second
-- that it is given, every other one.
abbrev pub every_other : (ℕ → ℕ) → (base k : ℕ) → ℕ
every_other os base k = if ltb k (base + 2) then os k else os (2 * k - (base + 2))

-- The states match: the same arenas, and the regions that have been given out.
module _ (os : ℕ → ℕ) (base : ℕ) where
  next_region :
      (rc rf : ℕ) → rc + base + 3 ≡ 2 * rf → base + 3 ≤ rf → every_other os base rf ≡ os (rc + 1)
  next_region rc rf e h =
      let later : ltb rf (base + 2) ≡ false = ground arith in
      rw (later, every_other) (ap os (omega arith))

  allocs_refines_from :
      (sizes : List ℕ) (ch : ℕ) (d s : Side) (rc rf : ℕ) (files : List File)
      → rc + base + 3 ≡ 2 * rf
      → base + 3 ≤ rf
      → blocks_of (
          allocs os sizes (record { channel = ch; dram = d; nvm = s; regions = rc; files = files }))
        ≡ blocks_of (
            Disjoint.allocs
              (every_other os base)
              sizes
              (record { dram = d; nvm = s; regions = rf }))
  unfolding allocs Disjoint.allocs alloc Fastalloc.alloc open_nvm open_arena bump_nvm alloc_side
      bump
  allocs_refines_from [] ch d s rc rf files e h = refl
  allocs_refines_from (size ∷ sizes) ch d s rc rf files e h =
      elim (Bool-cases (ltb s.left (round_up size))) [
        | inr fits ↦ rw fits (
            then_agree (record { start = s.curr; bytes = round_up size }) _ _
              (allocs_refines_from sizes ch d (bump (round_up size) s).1 rc rf files e h))
        | inl full ↦ elim (Bool-cases (ltb s.cnt max_slots)) [
          | inr none_left ↦ rw (full, none_left) refl
          | inl room ↦
              let opened : Side = record {
                slots = set s.slots s.cnt (os (rc + 1));
                curr = os (rc + 1);
                left = alloc_size;
                cnt = s.cnt + 1;
              } in
              rw (full, room, next_region rc rf e h)
                (then_agree (record { start = os (rc + 1); bytes = round_up size }) _ _
                  (allocs_refines_from sizes ch d (bump (round_up size) opened).1 (rc + 2) (rf + 1)
                    (files ++ record { channel = ch; numbers = s.cnt ∷ [] } ∷ []) (omega arith)
                    (omega arith)))
        ]
      ]

-- Where the k-th of these regions stands among all.
abbrev position : (base k : ℕ) → ℕ
position base k = if ltb k (base + 2) then k else 2 * k - (base + 2)

every_other-position : (os : ℕ → ℕ) (base k : ℕ) → every_other os base k ≡ os (position base k)
every_other-position os base k = elim (Bool-cases (ltb k (base + 2))) [
  | inl early ↦ rw early refl
  | inr late ↦ rw late refl
]

every_other-IsSystem :
    (os : ℕ → ℕ) (base total n : ℕ)
    → IsSystem os total
    → 0 < n
    → base + 1 + 2 * n ≤ total
    → IsSystem (every_other os base) (base + 2 + n)
every_other-IsSystem os base total n sys some_more room =
    let low : (k : ℕ) → k < base + 2 + n → position base k < total = λ k h. ground arith in
    record {
      spaced = λ i j hi hj ne.
          rw (every_other-position os base i, every_other-position os base j)
            (sys.spaced (position base i) (position base j) (low i hi) (low j hj)
              (λ same. ne (ground arith)));
      bounded =
          λ i hi. rw (every_other-position os base i) (sys.bounded (position base i) (low i hi));
    }

module _ (os : ℕ → ℕ) (ch channel : ℕ) (dram_slots nvm_slots : List ℕ) (base : ℕ) where
  -- For a channel from 0 to 3, `init` succeeds, and every run of requests on persistent memory
  -- after it grants the blocks that the allocator of fastallocate grants for the same requests
  -- after its own `init`, on the system without the regions that are discarded; and it fails where
  -- that fails.
  pub init-allocs_refines :
      ch < 4
      → (a : Allocator) × (f : Fastalloc) × (init os ch
            (constructed channel dram_slots nvm_slots base)
          ≡ Started.started (some a))
        × (Fastalloc.init
              (every_other os base)
              alloc_size
              (Fastalloc.constructed dram_slots nvm_slots base)
            ≡ some f)
        × ((sizes : List ℕ)
            → blocks_of (allocs os sizes a)
              ≡ blocks_of (Disjoint.allocs (every_other os base) sizes f))
  unfolding init open_both open_nvm open_arena constructed Fastalloc.init Fastalloc.constructed
  init-allocs_refines small =
      let good : leb 4 ch ≡ false = ground arith in
      let second : every_other os base (base + 2) ≡ os (base + 1 + 1) =
        every_other-position os base (base + 2) ∙ ap os (ground arith) in
      let first : every_other os base base ≡ os base =
        every_other-position os base base ∙ ap os (ground arith) in
      let d : Side = record {
        slots = set dram_slots 0 (os base);
        curr = os base;
        left = alloc_size;
        cnt = 0 + 1;
      } in
      let s : Side = record {
        slots = set nvm_slots 0 (os (base + 1 + 1));
        curr = os (base + 1 + 1);
        left = alloc_size;
        cnt = 0 + 1;
      } in
      (
        record {
          channel = ch;
          dram = d;
          nvm = s;
          regions = base + 1 + 2;
          files = record { channel = ch; numbers = 0 ∷ [] } ∷ [];
        },
        record { dram = d; nvm = s; regions = base + 3 },
        rw good refl,
        rw (first, second) refl,
        λ sizes.
            allocs_refines_from os base sizes ch d s (base + 1 + 2) (base + 3)
              (record { channel = ch; numbers = 0 ∷ [] } ∷ []) (omega arith) (omega arith),
      )

  blocks_of_inversion :
      {A : Type 0} (m : Option (List Block × A)) (bs : List Block)
      → blocks_of m ≡ some bs
      → (a' : A) × (m ≡ some (bs, a'))
  blocks_of_inversion none bs e = absurd (cc e)
  blocks_of_inversion (some r) bs e =
      let same : r.0 ≡ bs = cc e in (r.1, ap (λ (bs' : List Block). some (bs', r.1)) same)

  -- On a system with regions enough that do not overlap and end below 2 ^ 64, and for a channel
  -- from 0 to 3: `init` and then up to 99 requests on persistent memory, none above ALLOC_SIZE
  -- after rounding, all succeed, and no two of the blocks that they grant (their lengths rounded
  -- up) overlap.
  pub init-allocs-Separate :
      (sizes : List ℕ) (total : ℕ)
      → ch < 4
      → IsSystem os total
      → All (λ n. round_up n ≤ alloc_size) sizes
      → length sizes < max_slots
      → base + 3 + 2 * length sizes ≤ total
      → (a : Allocator) × (blocks : List Block) × (a' : Allocator) × (init os ch
            (constructed channel dram_slots nvm_slots base)
          ≡ Started.started (some a))
        × (allocs os sizes a ≡ some (blocks, a'))
        × Separate blocks
  init-allocs-Separate sizes total small sys fit room supply =
      let (a, f, starts, starts', agrees) = init-allocs_refines small in
      let (f', blocks, f'', started', serves, separate) =
        Disjoint.init-allocs (every_other os base) (base + 2 + (length sizes + 1))
          (every_other-IsSystem os base total (length sizes + 1) sys (omega arith) (omega arith))
          dram_slots nvm_slots base alloc_size sizes (omega arith) fit room (omega arith) in
      let same : f ≡ f' = cc (starts', started') in
      let granted : blocks_of (allocs os sizes a) ≡ some blocks =
        agrees sizes
        ∙ ap (λ g. blocks_of (Disjoint.allocs (every_other os base) sizes g)) same
        ∙ ap blocks_of serves in
      let (a', serves') = blocks_of_inversion (allocs os sizes a) blocks granted in
      (a, blocks, a', starts, serves', separate)
