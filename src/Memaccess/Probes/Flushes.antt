-- ===== src/Memaccess/Probes/Flushes.antt =====
-- What one batch of `cachefence` of OptaneStudy/src/memaccess.c accesses: its stores, and then the
-- flushes of the same lines.
use rw_sep.Prelude.{
  ℕ, zero, suc, ◌+◌, ◌-◌, ◌*◌, ◌/◌, ◌^◌, ◌≤◌, ◌<◌, some, List, [], ◌∷◌, ◌++◌, ◌≡◌, refl, ap, ◌∙◌,
  sym, append-nil, append_assoc, concat_upto, arith,
}
use rw_sep.Prelude.Loops.{iterate, do_while-iterate}
use rw_sep.Machine.{Instr, Reg, Event, Cpu, run, block, signed_ltb}
use rw_sep.Machine.Words.{signed_ltb-true, signed_ltb-false}
use rw_sep.Memaccess.Rounds.{pieces}
use rw_sep.Memaccess.Advance.{store_line}
use rw_sep.Memaccess.Probes.{start_r9, write_one, flush_one, flush_begin}

abbrev pub clwb_line : ℕ → List Event
clwb_line a = Event.clwb a ∷ []

-- One batch from address `p` up: `k` lines are stored, and then flushed.
abbrev pub batch : (k p : ℕ) → List Event
batch k p =
    concat_upto (λ j. store_line (p + 64 * j)) k ++ concat_upto (λ j. clwb_line (p + 64 * j)) k

-- After `k` rounds of CACHEFENCE_WRITEONE.
write_one_lem :
    (start_addr : ℕ) (c : Cpu)
    → c.r10 ≡ 0
    → (k : ℕ) → start_addr + c.r9 + 64 * k < 2 ^ 64
    → c.r11 + 64 * k < 2 ^ 64
    → ((iterate (run (write_one start_addr)) k c).r10 ≡ 64 * k)
      × ((iterate (run (write_one start_addr)) k c).r9 ≡ c.r9 + 64 * k)
      × ((iterate (run (write_one start_addr)) k c).r11 ≡ c.r11 + 64 * k)
      × ((iterate (run (write_one start_addr)) k c).rdx ≡ c.rdx)
      × ((iterate (run (write_one start_addr)) k c).trace
          ≡ c.trace ++ concat_upto (λ j. store_line (start_addr + c.r9 + 64 * j)) k)
unfolding iterate concat_upto run write_one
write_one_lem start_addr c z zero fits fits' =
    (z, omega arith, omega arith, refl, sym (append-nil c.trace))
write_one_lem start_addr c z (suc k) fits fits' =
    let before = write_one_lem start_addr c z k (omega arith) (omega arith) in
    (
      omega (arith, before.0),
      omega (arith, before.1),
      omega (arith, before.2),
      before.3,
      ap (λ a. (iterate (run (write_one start_addr)) k c).trace ++ store_line a)
            (omega (arith, before.1))
          ∙ ap (λ es. es ++ store_line (start_addr + c.r9 + 64 * k)) before.4
          ∙ append_assoc c.trace _ _,
    )

-- After `k` rounds of CACHEFENCE_FLUSHONE.
flush_one_lem :
    (c : Cpu) (k : ℕ)
    → c.rdx + 64 * k < 2 ^ 64
    → ((iterate (run flush_one) k c).rdx ≡ c.rdx + 64 * k)
      × ((iterate (run flush_one) k c).rcx ≡ c.rcx)
      × ((iterate (run flush_one) k c).r9 ≡ c.r9)
      × ((iterate (run flush_one) k c).r11 ≡ c.r11)
      × ((iterate (run flush_one) k c).trace
          ≡ c.trace ++ concat_upto (λ j. clwb_line (c.rdx + 64 * j)) k)
unfolding iterate concat_upto run flush_one
flush_one_lem c zero fits = (omega arith, refl, refl, refl, sym (append-nil c.trace))
flush_one_lem c (suc k) fits =
    let before = flush_one_lem c k (omega arith) in
    (
      omega (arith, before.0),
      before.1,
      before.2,
      before.3,
      ap (λ a. (iterate (run flush_one) k c).trace ++ clwb_line a) (omega (arith, before.0))
          ∙ ap (λ es. es ++ clwb_line (c.rdx + 64 * k)) before.4
          ∙ append_assoc c.trace _ _,
    )

-- The bytes of one batch.
abbrev pub span : (cache : ℕ) → ℕ
span cache = 64 * pieces cache

module _ (fuel start_addr cache : ℕ) (some_cache : 0 < cache) (cache_fuel : cache < fuel) where
  pub flush_begin_lem :
      (c : Cpu)
      → start_addr + c.r9 + cache + 64 ≤ 2 ^ 63
      → c.r11 + cache + 64 ≤ 2 ^ 63
      → (c' : Cpu) × (flush_begin fuel start_addr cache c ≡ some c')
        × (c'.r9 ≡ c.r9 + span cache)
        × (c'.r11 ≡ c.r11 + span cache)
        × (c'.trace ≡ c.trace ++ batch (pieces cache) (start_addr + c.r9))
  unfolding flush_begin run write_one flush_one iterate
  flush_begin_lem c fits fits' =
      let n : ℕ = (cache - 1) / 64 in
      let c0 = run (Instr.clear Reg.r10 ∷ Instr.lea (start_r9 start_addr) Reg.rdx ∷ []) c in
      let written = write_one_lem start_addr c0 refl in
      let w = written (suc n) (omega arith) (omega arith) in
      let c1 = iterate (run (write_one start_addr)) (suc n) c0 in
      let c2 = run (Instr.lea (start_r9 start_addr) Reg.rcx ∷ []) c1 in
      let from : c2.rdx ≡ start_addr + c.r9 = w.3 ∙ omega arith in
      let to : c2.rcx ≡ start_addr + c.r9 + span cache = omega (arith, w.1) in
      let flushed = flush_one_lem c2 in
      let f = flushed (suc n) (omega (arith, from)) in
      (
        iterate (run flush_one) (suc n) c2,
        rw
            (do_while-iterate (block (write_one start_addr)) (run (write_one start_addr))
              (λ t. signed_ltb t.r10 cache) c0 n (λ t. refl)
              (λ j h.
                rw ((written (suc j) (omega arith) (omega arith)).0)
                  (signed_ltb-true (64 * suc j) cache (omega arith) (omega arith)))
              (rw w.0 (signed_ltb-false (64 * suc n) cache (omega arith) (omega arith))) fuel
              (omega arith))
            (do_while-iterate (block flush_one) (run flush_one) (λ t. signed_ltb t.rdx t.rcx) c2 n
              (λ t. refl)
              (λ j h.
                let g = flushed (suc j) (omega (arith, from)) in
                rw (g.0, g.1)
                  (signed_ltb-true (c2.rdx + 64 * suc j) c2.rcx (omega (arith, from, to))
                    (omega (arith, to))))
              (rw (f.0, f.1)
                (signed_ltb-false (c2.rdx + 64 * suc n) c2.rcx (omega (arith, from, to))
                  (omega (arith, from))))
              fuel (omega arith)),
        f.2 ∙ w.1,
        f.3 ∙ w.2,
        f.4
            ∙ ap (λ (p : ℕ). c2.trace ++ concat_upto (λ j. clwb_line (p + 64 * j)) (suc n)) from
            ∙ ap (λ es. es ++ concat_upto (λ j. clwb_line (start_addr + c.r9 + 64 * j)) (suc n)) w.4
            ∙ append_assoc c.trace _ _,
      )
