-- ===== src/Fastalloc/Blocks.antt =====
-- The blocks that `fastalloc::alloc` (fastallocate/fastalloc.cpp) hands out.
use rw_sep.Prelude.{
  ℕ, ◌+◌, ◌^◌, ◌≤◌, ◌<◌, ◌≡◌, ◌≢◌, sym, ◌⊎◌, inl, inr, refl, true, Bool-cases, some, ltb, set,
  arith,
}
use native.Mathlib.Decide.{ℕ_discrete}
use rw_sep.Fastalloc.{Side, alloc_size, max_slots, alloc_side, open_arena, bump}

-- The bytes from `start` up.
pub record Block : Type 0 where
  pub start : ℕ
  pub bytes : ℕ

abbrev pub Apart : Block → Block → Type 0
Apart b d = (b.start + b.bytes ≤ d.start) ⊎ (d.start + d.bytes ≤ b.start)

-- What the system promises of its first `total` regions: they do not overlap and end below 2 ^ 64.
pub record IsSystem (os : ℕ → ℕ) (total : ℕ) : Type 0 where
  pub spaced :
      (i j : ℕ)
      → i < total
      → j < total
      → i ≢ j
      → (os i + alloc_size ≤ os j) ⊎ (os j + alloc_size ≤ os i)
  pub bounded : (i : ℕ) → i < total → os i + alloc_size < 2 ^ 64

-- The open arena of a side is what is left of region `r`.
pub record IsOpen (os : ℕ → ℕ) (r : ℕ) (s : Side) : Type 0 where
  pub above : os r ≤ s.curr
  pub within : s.curr + s.left ≤ os r + alloc_size

-- A block lies in one of the regions up to `r`; in region `r` it lies below `curr`.
pub record IsPlaced (os : ℕ → ℕ) (r curr : ℕ) (b : Block) : Type 0 where
  pub region : ℕ
  pub old : region ≤ r
  pub above : os region ≤ b.start
  pub within : b.start + b.bytes ≤ os region + alloc_size
  pub below : region ≡ r → b.start + b.bytes ≤ curr

module _ (os : ℕ → ℕ) (total : ℕ) (sys : IsSystem os total) where
  -- A block from `curr` of region `r` up is apart from the placed ones.
  pub placed-Apart :
      (r curr size : ℕ) (b : Block)
      → r < total
      → IsPlaced os r curr b
      → os r ≤ curr
      → curr + size ≤ os r + alloc_size
      → Apart b (record { start = curr; bytes = size })
  placed-Apart r curr size b inside p low high = elim (ℕ_discrete p.region r) [
    | yes e ↦ inl (p.below e)
    | no ne ↦ apart_regions (sys.spaced p.region r (omega (arith, p.old)) inside ne)
  ]
    where
      apart_regions :
          (os p.region + alloc_size ≤ os r) ⊎ (os r + alloc_size ≤ os p.region)
          → Apart b (record { start = curr; bytes = size })
      apart_regions (inl h) = inl (omega (arith, p.within))
      apart_regions (inr h) = inr (omega (arith, p.above))

  -- What an allocation of `size` bytes from side `s` in region `r` yields.
  pub record Granted (regions size r : ℕ) (s : Side) : Type 0 where
    pub p : ℕ
    pub s' : Side
    pub regions' : ℕ
    pub r' : ℕ
    pub returns : alloc_side os regions size s ≡ some (p, s', regions')
    pub newer : r ≤ r'
    pub known : r' < regions'
    pub regions_used : regions' ≤ regions + 1
    pub opened : IsOpen os r' s'
    pub at : os r' ≤ p
    pub ends : p + size ≡ s'.curr
    pub kept : r ≡ r' → s.curr ≤ p
    pub slots_used : s'.cnt ≤ s.cnt + 1

  bump_lem :
      (size r : ℕ) (s : Side)
      → r < total
      → IsOpen os r s
      → size ≤ s.left
      → ((bump size s).1.curr ≡ s.curr + size) × ((bump size s).1.left + size ≡ s.left)
  unfolding bump
  bump_lem size r s inside o fits =
      let b = sys.bounded r inside in (omega (arith, o.within), omega (arith, o.within))

  pub alloc_side-Granted :
      (regions size r : ℕ) (s : Side)
      → IsOpen os r s
      → r < regions
      → regions < total
      → size ≤ alloc_size
      → s.cnt < max_slots
      → Granted regions size r s
  unfolding alloc_side open_arena
  alloc_side-Granted regions size r s o known inside fits room =
      let slot : ltb s.cnt max_slots ≡ true = ground arith in
      elim (Bool-cases (ltb s.left size)) [
        | inl short ↦
            let fresh : Side = record {
              slots = set s.slots s.cnt (os regions);
              curr = os regions;
              left = alloc_size;
              cnt = s.cnt + 1;
            } in
            let whole : IsOpen os regions fresh = record {
              above = omega arith;
              within = omega arith;
            } in
            let b = bump_lem size regions fresh inside whole fits in
            record {
              p = os regions;
              s' = (bump size fresh).1;
              regions' = regions + 1;
              r' = regions;
              returns = rw (short, slot) (unfold bump in refl);
              newer = omega arith;
              known = omega arith;
              regions_used = omega arith;
              opened = record { above = omega (arith, b.0); within = omega (arith, b.0, b.1) };
              at = omega arith;
              ends = sym b.0;
              kept = λ e. absurd (omega arith);
              slots_used = unfold bump in omega arith;
            }
        | inr enough ↦
            let b = bump_lem size r s (omega arith) o (ground arith) in
            record {
              p = s.curr;
              s' = (bump size s).1;
              regions' = regions;
              r' = r;
              returns = rw enough (unfold bump in refl);
              newer = omega arith;
              known = known;
              regions_used = omega arith;
              opened = record {
                above = omega (arith, b.0, o.above);
                within = omega (arith, b.0, b.1, o.within);
              };
              at = o.above;
              ends = sym b.0;
              kept = λ e. omega arith;
              slots_used = unfold bump in omega arith;
            }
      ]

  pub IsPlaced-later :
      (r curr r' curr' : ℕ) (b : Block)
      → IsPlaced os r curr b
      → r ≤ r'
      → (r ≡ r' → curr ≤ curr')
      → IsPlaced os r' curr' b
  IsPlaced-later r curr r' curr' b p newer later = record {
    region = p.region;
    old = omega (arith, p.old);
    above = p.above;
    within = p.within;
    below = λ e.
        let same : p.region ≡ r = omega (arith, p.old) in
        omega (arith, p.below same, later (omega (arith, p.old)));
  }
