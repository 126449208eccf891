-- ===== src/Memaccess/Probes/Lines.antt =====
-- What `cacheprobe` and `imcprobe` of OptaneStudy/src/memaccess.c access, and which of it is
-- durable.
use rw_sep.Prelude.{
  ℕ, zero, suc, ◌+◌, ◌-◌, ◌*◌, ◌/◌, ◌^◌, ◌≤◌, ◌<◌, some, List, [], ◌∷◌, ◌++◌, ◌≡◌, refl, ap, ◌∙◌,
  sym, append-nil, append_assoc, concat_upto, arith,
}
use native.Mathlib.Nat.{div-le_self}
use rw_sep.Prelude.Loops.{iterate, do_while, do_while-iterate, do_while_invariant, ◌>>=◌}
use rw_sep.Machine.{Instr, Reg, Src, Event, Cpu, add64, run, block, signed_ltb}
use rw_sep.Machine.Words.{signed_ltb-true, signed_ltb-false}
use rw_sep.Machine.Persist.{Lines, effects, NoDirty, Durable}
use rw_sep.Memaccess.Stride.{load_zmm0}
use rw_sep.Memaccess.Rounds.{Traces, at_least_one}
use rw_sep.Memaccess.Advance.{stream_line}
use rw_sep.Machine.Faults.{IsAligned}
use rw_sep.Memaccess.Durable.{Tidy, Tidy-concat_upto, mfence-Durable, Settles-append, settled}
use rw_sep.Memaccess.Sequential.Sweeps.{chunks, reaches_end}
use rw_sep.Memaccess.Probes.{cacheprobe_body, imcprobe_body, cacheprobe, imcprobe_inner, imcprobe}

-- What one round of a loop that advances r8 does: events `evs` from address r8.
record Stepped (step : ℕ) (evs : ℕ → List Event) (c c' : Cpu) : Type 0 where
  r8 : c'.r8 ≡ add64 c.r8 step
  r9 : c'.r9 ≡ c.r9
  trace : c'.trace ≡ c.trace ++ evs c.r8

module _ (step : ℕ) (evs : ℕ → List Event) (body : List Instr)
    (steps : (c : Cpu) → c.r8 < 2 ^ 64 → Stepped step evs c (run body c)) where
  -- After `k` rounds from `a`.
  iterate-Stepped :
      (a : ℕ) (c : Cpu)
      → c.r8 ≡ a
      → (k : ℕ) → a + step * k < 2 ^ 64
      → ((iterate (run body) k c).r8 ≡ a + step * k)
        × ((iterate (run body) k c).r9 ≡ c.r9)
        × ((iterate (run body) k c).trace ≡ c.trace ++ concat_upto (λ i. evs (a + step * i)) k)
  unfolding iterate concat_upto
  iterate-Stepped a c here zero fits = (omega (arith, here), refl, sym (append-nil c.trace))
  iterate-Stepped a c here (suc k) fits =
      let before = iterate-Stepped a c here k (omega arith) in
      let last = steps (iterate (run body) k c) (omega (arith, before.0)) in
      (
        omega (arith, last.r8, before.0),
        last.r9 ∙ before.1,
        last.trace ∙ rw (before.2, before.0) (append_assoc c.trace _ _),
      )

  -- The loop up to `end_addr`.
  loop-Stepped :
      (start_addr end_addr fuel : ℕ) (c : Cpu)
      → c.r8 ≡ start_addr
      → 0 < step
      → start_addr < end_addr
      → end_addr + step ≤ 2 ^ 63
      → end_addr - start_addr < fuel
      → (c' : Cpu) × (do_while fuel (block body) (λ t. signed_ltb t.r8 end_addr) c ≡ some c')
        × (c'.r9 ≡ c.r9)
        × (c'.trace
            ≡ c.trace
              ++ concat_upto (λ i. evs (start_addr + step * i)) (chunks start_addr end_addr step))
  loop-Stepped start_addr end_addr fuel c here pos order fits enough =
      let span : ℕ = end_addr - start_addr in
      let n : ℕ = (span - 1) / step in
      let r = reaches_end step span pos (omega arith) in
      let few = div-le_self (span - 1) step in
      let final = iterate-Stepped start_addr c here (suc n) (omega (arith, r.1)) in
      (
        iterate (run body) (suc n) c,
        do_while-iterate (block body) (run body) (λ t. signed_ltb t.r8 end_addr) c n (λ t. refl)
            (λ j h.
              let short = r.2 j h in
              rw ((iterate-Stepped start_addr c here (suc j) (omega (arith, short))).0) (
                signed_ltb-true (start_addr + step * suc j) end_addr (omega (arith, short))
                  (omega arith)))
            (rw final.0 (
              signed_ltb-false (start_addr + step * suc n) end_addr (omega (arith, r.0))
                (omega (arith, r.1))))
            fuel (omega (arith, few)),
        final.1,
        final.2,
      )

-- The events of one round of `cacheprobe` at address `a`.
abbrev pub probe_pair : ℕ → List Event
probe_pair a =
    Event.store a 64
    ∷ Event.clflush a
    ∷ Event.store (add64 a 0x40) 64
    ∷ Event.clflush (add64 a 0x40)
    ∷ []

cacheprobe_body-Stepped :
    (stride : ℕ) (c : Cpu)
    → c.r8 < 2 ^ 64
    → Stepped stride probe_pair c (run (cacheprobe_body stride) c)
unfolding run cacheprobe_body
cacheprobe_body-Stepped stride c h =
    let e : add64 c.r8 0 ≡ c.r8 = omega arith in
    record { r8 = refl; r9 = refl; trace = rw (e, append_assoc, append_assoc, append_assoc) refl }

imcprobe_body-Stepped : (c : Cpu) → c.r8 < 2 ^ 64 → Stepped 64 stream_line c (run imcprobe_body c)
unfolding run imcprobe_body
imcprobe_body-Stepped c h = record {
  r8 = refl;
  r9 = refl;
  trace = ap (λ a. c.trace ++ stream_line a) (omega arith);
}

probe_pair-Tidy : (a : ℕ) → IsAligned a → Tidy (probe_pair a)
unfolding effects
probe_pair-Tidy a al ls h x = ground (arith, h x)

-- The events of `cacheprobe`, and of one inner loop of `imcprobe`.
abbrev pub probed : (start_addr end_addr stride : ℕ) → List Event
probed start_addr end_addr stride =
    concat_upto (λ i. probe_pair (start_addr + stride * i)) (chunks start_addr end_addr stride)
    ++ Event.mfence ∷ []

abbrev pub streamed : (start_addr end_addr : ℕ) → List Event
streamed start_addr end_addr =
    concat_upto (λ i. stream_line (start_addr + 64 * i)) (chunks start_addr end_addr 64)

step-IsAligned : (a skip i : ℕ) → IsAligned a → IsAligned skip → IsAligned (a + skip * i)
step-IsAligned a skip i h k =
    let e : skip ≡ 64 * (skip / 64) = omega arith in omega (arith, ap (λ (t : ℕ). t * i) e)

module _ (start_addr end_addr fuel : ℕ) (c : Cpu) (order : start_addr < end_addr)
    (span_fuel : end_addr - start_addr < fuel) where
  -- With start_addr below end_addr, a stride above 0, both addresses and one stride more up to
  -- 2 ^ 63, and fuel above the distance, `cacheprobe` returns; it has stored and flushed the two
  -- 64-byte lines at each address that is start_addr plus a multiple of the stride and below
  -- end_addr, upwards, and then fenced. With start_addr and the stride multiples of 64 and no line
  -- dirty before, every line is durable then.
  pub cacheprobe-Durable :
      (stride : ℕ) (ls : Lines)
      → 0 < stride
      → end_addr + stride ≤ 2 ^ 63
      → IsAligned start_addr
      → IsAligned stride
      → NoDirty (effects c.trace ls)
      → (c' : Cpu) × (cacheprobe fuel start_addr end_addr stride c ≡ some c')
        × (c'.trace ≡ c.trace ++ probed start_addr end_addr stride)
        × Durable (effects c'.trace ls)
  unfolding cacheprobe run load_zmm0
  cacheprobe-Durable stride ls pos fits al al' no_dirty =
      let (c1, ends, same, traced) =
        loop-Stepped stride probe_pair (cacheprobe_body stride) (cacheprobe_body-Stepped stride)
          start_addr end_addr fuel
          (run (Instr.mov Reg.r8 (Src.imm start_addr) ∷ load_zmm0 start_addr) c) refl pos order fits
          span_fuel in
      let traced' : c1.trace ++ Event.mfence ∷ [] ≡ c.trace ++ probed start_addr end_addr stride =
        rw traced (append_assoc c.trace _ _) in
      (
        run (Instr.mfence ∷ []) c1,
        rw ends refl,
        traced',
        settled c.trace (c1.trace ++ Event.mfence ∷ []) (probed start_addr end_addr stride) ls
            traced'
            (Settles-append _ (Event.mfence ∷ [])
              (Tidy-concat_upto (λ i. probe_pair (start_addr + stride * i))
                (chunks start_addr end_addr stride)
                (λ i.
                  probe_pair-Tidy (start_addr + stride * i)
                    (step-IsAligned start_addr stride i al al')))
              mfence-Durable)
            no_dirty,
      )

  imcprobe_inner_lem :
      (t : Cpu)
      → end_addr + 64 ≤ 2 ^ 63
      → (t' : Cpu) × (imcprobe_inner fuel start_addr end_addr t ≡ some t')
        × (t'.r9 ≡ t.r9)
        × (t'.trace ≡ t.trace ++ streamed start_addr end_addr)
  unfolding imcprobe_inner run
  imcprobe_inner_lem t fits =
      loop-Stepped 64 stream_line imcprobe_body imcprobe_body-Stepped start_addr end_addr fuel
        (run (Instr.mov Reg.r8 (Src.imm start_addr) ∷ []) t) refl (omega arith) order fits span_fuel

  -- With start_addr below end_addr, end_addr and 64 more up to 2 ^ 63, a count that is not negative
  -- as `long`, and fuel above the distance and the count, `imcprobe` returns; it has made as many
  -- sweeps as the count says, and at least one, each a non-temporal store to every 64-byte line
  -- from start_addr up to end_addr, upwards, and no fence.
  pub imcprobe-Traces :
      (loop : ℕ)
      → end_addr + 64 ≤ 2 ^ 63
      → loop < 2 ^ 63
      → loop < fuel
      → Traces
          (imcprobe fuel start_addr end_addr loop c)
          c
          (concat_upto (λ i. streamed start_addr end_addr) (at_least_one loop))
  unfolding imcprobe run concat_upto load_zmm0
  imcprobe-Traces loop fits loop_fits loop_fuel =
      let (c1, ends, inv) =
        do_while_invariant
          (λ t.
            imcprobe_inner fuel start_addr end_addr t >>= block (Instr.add Reg.r9 (Src.imm 1) ∷ []))
          (λ t. signed_ltb t.r9 loop)
          (λ i t.
            (t.r9 ≡ i) × (t.trace ≡ c.trace ++ concat_upto (λ i. streamed start_addr end_addr) i))
          (loop - 1)
          (λ i t small inv.
            let (t', sweeps, kept, more) = imcprobe_inner_lem t fits in
            (
              run (Instr.add Reg.r9 (Src.imm 1) ∷ []) t',
              rw sweeps refl,
              (omega (arith, kept, inv.0), more ∙ rw inv.1 (append_assoc c.trace _ _)),
            ))
          (λ i t small inv. rw inv.0 (signed_ltb-true (suc i) loop (omega arith) (omega arith)))
          (λ t inv. rw inv.0 (signed_ltb-false (suc (loop - 1)) loop (omega arith) (omega arith)))
          fuel 0 (loop - 1) (run (Instr.clear Reg.r9 ∷ load_zmm0 start_addr) c) (omega arith)
          (omega arith) (refl, sym (append-nil c.trace)) in
      (c1, ends, inv.1)
