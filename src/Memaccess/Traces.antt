-- ===== src/Memaccess/Traces.antt =====
-- The whole outer loop of the stride kernels of OptaneStudy/src/memaccess.c, over any work that its
-- rounds do.
use rw_sep.Prelude.{
  ℕ, zero, suc, ◌-◌, ◌*◌, ◌%◌, ◌^◌, ◌<◌, Option, List, ◌++◌, ◌≡◌, refl, ap, ◌∙◌, sym, some,
  append-nil, append_assoc, concat_upto, arith,
}
use rw_sep.Prelude.Loops.{iterate, do_while-iterate}
use rw_sep.Machine.{Event, Cpu, add64, run, signed_ltb}
use rw_sep.Machine.Words.{signed_ltb-true, signed_ltb-false}
use rw_sep.Memaccess.Stride.{stride_round, stride_loop, enter_round, leave_round}
use rw_sep.Memaccess.Rounds.{at_least_one, Traces, Works, delay_loop_ends}

-- One round of the outer loop.
record Rounded (evs : ℕ → List Event) (start_addr skip : ℕ) (c c' : Cpu) : Type 0 where
  r8 : c'.r8 ≡ add64 c.r8 skip
  r11 : c'.r11 ≡ add64 c.r11 1
  trace : c'.trace ≡ c.trace ++ evs (add64 start_addr c.r8)

module _ (work : Cpu → Option Cpu) (evs : ℕ → List Event) (works : Works work evs)
    (start_addr skip delay fuel : ℕ) (delay_fits : delay < 2 ^ 63) (delay_fuel : delay < fuel) where
  abbrev entered : Cpu → Cpu
  entered c = run (enter_round start_addr) c

  entered-r10 : (c : Cpu) → (entered c).r10 ≡ 0
  unfolding run enter_round
  entered-r10 c = refl

  entered_lem :
      (c : Cpu)
      → ((entered c).r8 ≡ c.r8)
        × ((entered c).r9 ≡ add64 start_addr c.r8)
        × ((entered c).r11 ≡ c.r11)
        × ((entered c).trace ≡ c.trace)
  unfolding run enter_round
  entered_lem c = (refl, omega arith, refl, refl)

  left_lem :
      (c : Cpu)
      → ((run (leave_round skip) c).r8 ≡ add64 c.r8 skip)
        × ((run (leave_round skip) c).r11 ≡ add64 c.r11 1)
        × ((run (leave_round skip) c).trace ≡ c.trace)
  unfolding run leave_round
  left_lem c = (refl, refl, refl)

  stride_round_ends :
      (c : Cpu)
      → (c' : Cpu) × (stride_round fuel work start_addr skip delay c ≡ some c')
        × Rounded evs start_addr skip c c'
  unfolding stride_round
  stride_round_ends c =
      let (c1, returns, worked) = works (entered c) (entered-r10 c) in
      let (c2, waits, same8, same11, same_trace) =
        delay_loop_ends c1 delay fuel worked.r10 delay_fits delay_fuel in
      let e = entered_lem c in
      let l = left_lem c2 in
      (
        run (leave_round skip) c2,
        rw (returns, waits),
        record {
          r8 = rw (l.0, same8, worked.r8, e.0);
          r11 = rw (l.1, same11, worked.r11, e.2);
          trace = rw (l.2, same_trace, worked.trace, e.1, e.3);
        },
      )

  abbrev round : Cpu → Cpu
  round c = (stride_round_ends c).0

  -- After `k` rounds from r8 = 0 and r11 = 0.
  rounds_lem :
      (c : Cpu) (k : ℕ)
      → c.r8 ≡ 0
      → c.r11 ≡ 0
      → k < 2 ^ 64
      → ((iterate round k c).r8 ≡ skip * k % 2 ^ 64)
        × ((iterate round k c).r11 ≡ k)
        × ((iterate round k c).trace
            ≡ c.trace ++ concat_upto (λ i. evs (add64 start_addr (skip * i))) k)
  unfolding iterate concat_upto
  rounds_lem c zero z8 z11 fits = (omega arith, z11, sym (append-nil c.trace))
  rounds_lem c (suc k) z8 z11 fits =
      let before = rounds_lem c k z8 z11 (omega arith) in
      let last = (stride_round_ends (iterate round k c)).2 in
      let here : add64 start_addr (skip * k % 2 ^ 64) ≡ add64 start_addr (skip * k) = omega arith in
      (
        omega (arith, last.r8, before.0),
        omega (arith, last.r11, before.1),
        last.trace ∙ rw (before.0, before.2, here) (append_assoc c.trace _ _),
      )

  -- The kernel with `work` in its rounds ends, and appends the rounds' events to the trace.
  pub stride_loop-Traces :
      (prologue : List _) (count : ℕ) (c : Cpu)
      → ((run prologue c).r8 ≡ 0)
      → ((run prologue c).r11 ≡ 0)
      → ((run prologue c).trace ≡ c.trace)
      → count < 2 ^ 63
      → count < fuel
      → Traces
          (stride_loop fuel prologue work start_addr skip delay count c)
          c
          (concat_upto (λ i. evs (add64 start_addr (skip * i))) (at_least_one count))
  unfolding stride_loop
  stride_loop-Traces prologue count c z8 z11 same fits enough =
      let c0 = run prologue c in
      (
        iterate round (at_least_one count) c0,
        do_while-iterate (stride_round fuel work start_addr skip delay) round
            (λ c'. signed_ltb c'.r11 count) c0 (count - 1) (λ t. (stride_round_ends t).1)
            (λ j h.
              rw ((rounds_lem c0 (suc j) z8 z11 (omega arith)).1)
                (signed_ltb-true (suc j) count (omega arith) fits))
            (rw ((rounds_lem c0 (at_least_one count) z8 z11 (omega arith)).1)
              (signed_ltb-false (at_least_one count) count (omega arith) (omega arith)))
            fuel (omega arith),
        (rounds_lem c0 (at_least_one count) z8 z11 (omega arith)).2
            ∙ ap
                (λ es.
                  es ++ concat_upto (λ i. evs (add64 start_addr (skip * i))) (at_least_one count))
                same,
      )
