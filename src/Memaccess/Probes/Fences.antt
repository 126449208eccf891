-- ===== src/Memaccess/Probes/Fences.antt =====
-- What `cachefence` of OptaneStudy/src/memaccess.c accesses: groups of batches, and a fence behind
-- each group.
use rw_sep.Prelude.{
  ℕ, zero, suc, ◌+◌, ◌-◌, ◌*◌, ◌/◌, ◌^◌, ◌≤◌, ◌<◌, some, List, [], ◌∷◌, ◌++◌, ◌≡◌, refl, ap, ◌∙◌,
  sym, append-nil, append_assoc, concat_upto, arith,
}
use native.Mathlib.Nat.{div-le_self}
use rw_sep.Prelude.Loops.{do_while_invariant}
use rw_sep.Machine.{Instr, Reg, Event, Cpu, run, signed_ltb}
use rw_sep.Machine.Words.{signed_ltb-true, signed_ltb-false}
use rw_sep.Memaccess.Stride.{load_zmm0}
use rw_sep.Memaccess.Rounds.{Traces, pieces}
use rw_sep.Memaccess.Sequential.Sweeps.{reaches_end}
use rw_sep.Memaccess.Probes.{flush_begin, fence_begin, cachefence}
use rw_sep.Memaccess.Probes.Flushes.{batch, span, flush_begin_lem}

-- A loop below its limit before each of its rounds.
below_limit :
    (step limit n i : ℕ)
    → 0 < limit
    → ((j : ℕ) → j < n → step * suc j < limit)
    → i ≤ n
    → step * i < limit
below_limit step limit n zero pos short small = omega arith
below_limit step limit n (suc i) pos short small = short i small

-- A round's events, appended to those of the rounds before it.
one_part_more :
    (part : ℕ → List Event) (i : ℕ) (start old new here : List Event)
    → new ≡ old ++ here
    → here ≡ part i
    → old ≡ start ++ concat_upto part i
    → new ≡ start ++ concat_upto part (suc i)
unfolding concat_upto
one_part_more part i start old new here e e' h =
    e ∙ rw (h, e') (append_assoc start (concat_upto part i) (part i))

-- How many batches one fence stands behind, and their bytes.
abbrev pub batches : (cache fence : ℕ) → ℕ
batches cache fence = suc ((fence - 1) / span cache)

abbrev pub group_span : (cache fence : ℕ) → ℕ
group_span cache fence = span cache * batches cache fence

-- The events of one group from address `p` up.
abbrev pub group : (cache fence p : ℕ) → List Event
group cache fence p =
    concat_upto (λ i. batch (pieces cache) (p + span cache * i)) (batches cache fence)
    ++ Event.sfence ∷ []

module _ (fuel start_addr cache : ℕ) (some_cache : 0 < cache) (cache_fuel : cache < fuel)
    (fence : ℕ) (some_fence : 0 < fence) (fence_fuel : fence < fuel) where
  group_span-le : group_span cache fence < fence + cache + 64
  group_span-le =
      let r = reaches_end (span cache) fence (omega arith) some_fence in omega (arith, r.1)

  fence_begin_lem :
      (c : Cpu)
      → start_addr + c.r9 + fence + 2 * cache + 128 ≤ 2 ^ 63
      → (c' : Cpu) × (fence_begin fuel start_addr cache fence c ≡ some c')
        × (c'.r9 ≡ c.r9 + group_span cache fence)
        × (c'.trace ≡ c.trace ++ group cache fence (start_addr + c.r9))
  unfolding fence_begin run concat_upto
  fence_begin_lem c fits =
      let n : ℕ = (fence - 1) / span cache in
      let r = reaches_end (span cache) fence (omega arith) some_fence in
      let few = div-le_self (fence - 1) (span cache) in
      let (c1, ends, inv) =
        do_while_invariant (flush_begin fuel start_addr cache) (λ t. signed_ltb t.r11 fence)
          (λ i t.
            (t.r9 ≡ c.r9 + span cache * i)
            × (t.r11 ≡ span cache * i)
            × (t.trace
                ≡ c.trace
                  ++ concat_upto (λ i. batch (pieces cache) (start_addr + c.r9 + span cache * i))
                      i))
          n
          (λ i t small inv.
            let low : span cache * i < fence =
              below_limit (span cache) fence n i some_fence r.2 small in
            let (t', flushes, at, counted, traced) =
              flush_begin_lem fuel start_addr cache some_cache cache_fuel t (omega (arith, inv.0))
                (omega (arith, inv.1)) in
            (
              t',
              flushes,
              (
                omega (arith, at, inv.0),
                omega (arith, counted, inv.1),
                one_part_more (λ i. batch (pieces cache) (start_addr + c.r9 + span cache * i)) i
                    c.trace t.trace t'.trace _ traced
                    (ap (batch (pieces cache)) (omega (arith, inv.0))) inv.2,
              ),
            ))
          (λ i t small inv.
            rw inv.1 (signed_ltb-true (span cache * suc i) fence (r.2 i small) (omega arith)))
          (λ t inv. rw inv.1 (signed_ltb-false (span cache * suc n) fence r.0 (omega (arith, r.1))))
          fuel 0 n (run (Instr.clear Reg.r11 ∷ []) c) (omega (arith, few)) (omega arith)
          (omega arith, omega arith, sym (append-nil c.trace)) in
      (run (Instr.sfence ∷ []) c1, rw ends refl, inv.0, rw inv.2 (append_assoc c.trace _ _))

  -- With lengths above 0, room for them below 2 ^ 63, and fuel above each, `cachefence` returns,
  -- and its accesses are, in this order: for each group of batches from start_addr up, as many
  -- groups as cover `size` bytes, the stores and then the flushes of each batch of the group, as
  -- many batches as cover `fence` bytes, each as many 64-byte lines as cover `cache`, and then
  -- one fence.
  pub cachefence-Traces :
      (size : ℕ) (c : Cpu)
      → 0 < size
      → size < fuel
      → start_addr + size + 2 * fence + 3 * cache + 192 ≤ 2 ^ 63
      → Traces (cachefence fuel start_addr size cache fence c) c (
          concat_upto
            (λ i. group cache fence (start_addr + group_span cache fence * i))
            (suc ((size - 1) / group_span cache fence)))
  unfolding cachefence run load_zmm0 concat_upto
  cachefence-Traces size c some_size size_fuel fits =
      let step = group_span cache fence in
      let n : ℕ = (size - 1) / step in
      let bound = group_span-le in
      let r = reaches_end step size (omega arith) some_size in
      let few = div-le_self (size - 1) step in
      let (c1, ends, inv) =
        do_while_invariant (fence_begin fuel start_addr cache fence) (λ t. signed_ltb t.r9 size)
          (λ i t.
            (t.r9 ≡ step * i)
            × (t.trace ≡ c.trace ++ concat_upto (λ i. group cache fence (start_addr + step * i)) i))
          n
          (λ i t small inv.
            let low : step * i < size = below_limit step size n i some_size r.2 small in
            let (t', groups, at, traced) = fence_begin_lem t (omega (arith, inv.0)) in
            (
              t',
              groups,
              (
                omega (arith, at, inv.0),
                one_part_more (λ i. group cache fence (start_addr + step * i)) i c.trace t.trace
                    t'.trace _ traced (ap (λ p. group cache fence (start_addr + p)) inv.0) inv.1,
              ),
            ))
          (λ i t small inv.
            rw inv.0 (signed_ltb-true (step * suc i) size (r.2 i small) (omega arith)))
          (λ t inv. rw inv.0 (signed_ltb-false (step * suc n) size r.0 (omega (arith, r.1)))) fuel 0
          n (run (Instr.clear Reg.r9 ∷ []) (run (load_zmm0 start_addr) c)) (omega (arith, few))
          (omega arith) (omega arith, sym (append-nil c.trace)) in
      (c1, ends, inv.1)
