-- ===== src/Memaccess/Probes/Batches.antt =====
-- What `cachefence` of OptaneStudy/src/memaccess.c leaves durable: its flushes reach each line that
-- its stores have dirtied, and its fences complete them.
use rw_sep.Prelude.{
  ltb, ◌==◌, Bool-cases, refl, ℕ, zero, suc, ◌+◌, ◌-◌, ◌*◌, ◌/◌, ◌^◌, ◌≤◌, ◌<◌, some, [], ◌∷◌, ◌≡◌,
  ◌≢◌, ◌⊎◌, inl, inr, concat_upto, arith,
}
use native.Mathlib.Nat.{mul_assoc}
use rw_sep.Machine.{Event, Cpu}
use rw_sep.Machine.Persist.{
  Status, Lines, line, flush_line, effects, effects-append, NoDirty, Durable,
}
use rw_sep.Memaccess.Advance.{store_line}
use rw_sep.Memaccess.Rounds.{pieces}
use rw_sep.Machine.Faults.{IsAligned}
use rw_sep.Memaccess.Durable.{
  Tidy, Tidy-concat_upto, Settles, Settles-append, Settles-concat_upto, settled,
}
use rw_sep.Memaccess.Probes.{cachefence}
use rw_sep.Memaccess.Probes.Flushes.{clwb_line, batch, span}
use rw_sep.Memaccess.Probes.Fences.{batches, group_span, group, cachefence-Traces}

-- The stores dirty only the lines that they cover.
stores_outside :
    (k p : ℕ) (ls : Lines) (x : ℕ)
    → IsAligned p
    → (x < line p) ⊎ (line p + k ≤ x)
    → effects (concat_upto (λ j. store_line (p + 64 * j)) k) ls x ≡ ls x
unfolding effects concat_upto
stores_outside zero p ls x al out = refl
stores_outside (suc k) p ls x al out =
    let before = stores_outside k p ls x al (ground arith) in
    rw effects-append (ground (arith, before))

flush_line-NotDirty :
    (a : ℕ) (ls : Lines) (x : ℕ)
    → (ls x ≢ Status.dirty) ⊎ (line a ≡ x)
    → flush_line a ls x ≢ Status.dirty
flush_line-NotDirty a ls x h = ground arith

-- The flushes leave a line that is not dirty, and any that they reach, not dirty.
flushes_inside :
    (k p : ℕ) (ls : Lines) (x : ℕ)
    → IsAligned p
    → (ls x ≢ Status.dirty) ⊎ ((line p ≤ x) × (x < line p + k))
    → effects (concat_upto (λ j. clwb_line (p + 64 * j)) k) ls x ≢ Status.dirty
unfolding effects concat_upto
flushes_inside zero p ls x al (inl h) = h
flushes_inside zero p ls x al (inr h) = absurd (omega arith)
flushes_inside (suc k) p ls x al h =
    let ls' = effects (concat_upto (λ j. clwb_line (p + 64 * j)) k) ls in
    rw effects-append (
      flush_line-NotDirty (p + 64 * k) ls' x (elim h [
        | inl clean ↦ inl (flushes_inside k p ls x al (inl clean))
        | inr (from, to) ↦ elim (Bool-cases (x == line p + k)) [
          | inl last ↦ inr (ground arith)
          | inr other ↦ inl (flushes_inside k p ls x al (inr (from, ground arith)))
        ]
      ]))

batch-Tidy : (k p : ℕ) → IsAligned p → Tidy (batch k p)
batch-Tidy k p al ls h x = rw effects-append (
    flushes_inside k p (effects (concat_upto (λ j. store_line (p + 64 * j)) k) ls) x al
      (elim (Bool-cases (ltb x (line p))) [
        | inl below ↦ inl (rw (stores_outside k p ls x al (inl (ground arith))) (h x))
        | inr other ↦ elim (Bool-cases (ltb x (line p + k))) [
          | inl inside ↦ inr (ground arith, ground arith)
          | inr above ↦ inl (rw (stores_outside k p ls x al (inr (ground arith))) (h x))
        ]
      ]))

sfence-Durable : (ls : Lines) → NoDirty ls → Durable (effects (Event.sfence ∷ []) ls)
unfolding effects
sfence-Durable ls h x = ground (arith, h x)

multiple-IsAligned : (p k i : ℕ) → IsAligned p → IsAligned (p + 64 * k * i)
multiple-IsAligned p k i al = rw (mul_assoc 64 k i) (omega arith)

-- Batches begin at multiples of 64 bytes, and groups do.
span-IsAligned : (cache p i : ℕ) → IsAligned p → IsAligned (p + span cache * i)
span-IsAligned cache p i al = multiple-IsAligned p (pieces cache) i al

group_span-IsAligned :
    (cache fence p i : ℕ) → IsAligned p → IsAligned (p + group_span cache fence * i)
group_span-IsAligned cache fence p i al =
    rw (mul_assoc 64 (pieces cache) (batches cache fence))
      (multiple-IsAligned p (pieces cache * batches cache fence) i al)

group-Settles : (cache fence p : ℕ) → IsAligned p → Settles (group cache fence p)
group-Settles cache fence p al =
    Settles-append
      (concat_upto (λ i. batch (pieces cache) (p + span cache * i)) (batches cache fence))
      (Event.sfence ∷ [])
      (Tidy-concat_upto (λ i. batch (pieces cache) (p + span cache * i)) (batches cache fence)
        (λ i. batch-Tidy (pieces cache) (p + span cache * i) (span-IsAligned cache p i al)))
      sfence-Durable

-- With start_addr a multiple of 64, lengths above 0, room for them below 2 ^ 63, and fuel above
-- each: if no line was dirty before, every line is durable when `cachefence` returns, and it
-- returns.
pub cachefence-Durable :
    (fuel start_addr size cache fence : ℕ) (c : Cpu) (ls : Lines)
    → IsAligned start_addr
    → 0 < size
    → 0 < cache
    → 0 < fence
    → size < fuel
    → cache < fuel
    → fence < fuel
    → start_addr + size + 2 * fence + 3 * cache + 192 ≤ 2 ^ 63
    → NoDirty (effects c.trace ls)
    → (c' : Cpu) × (cachefence fuel start_addr size cache fence c ≡ some c')
      × Durable (effects c'.trace ls)
cachefence-Durable fuel start_addr size cache fence c ls al some_size some_cache some_fence
      size_fuel cache_fuel fence_fuel fits no_dirty =
    let step = group_span cache fence in
    let (c', returns, traced) =
      cachefence-Traces fuel start_addr cache some_cache cache_fuel fence some_fence fence_fuel size
        c some_size size_fuel fits in
    (
      c',
      returns,
      settled c.trace c'.trace _ ls traced
          (Settles-concat_upto (λ i. group cache fence (start_addr + step * i)) ((size - 1) / step)
            (λ i.
              group-Settles cache fence (start_addr + step * i)
                (group_span-IsAligned cache fence start_addr i al)))
          no_dirty,
    )
