-- ===== src/Memaccess/Sequential/Sweeps.antt =====
-- The two loops of the `seq_` kernels of OptaneStudy/src/memaccess.c, over any accesses.
use rw_sep.Prelude.{
  ℕ, zero, suc, ◌+◌, ◌-◌, ◌*◌, ◌/◌, ◌^◌, ◌≤◌, ◌<◌, some, List, [], ◌∷◌, ◌++◌, ◌≡◌, refl, ap, ◌∙◌,
  sym, append-nil, append_assoc, concat_upto, arith,
}
use native.Mathlib.Nat.{mul-le-mul_left, lt-mul-div-succ, div-mul-le_self, div-le_self, mul_comm}
use rw_sep.Prelude.Loops.{iterate, do_while-iterate, ◌>>=◌}
use rw_sep.Machine.{Instr, Reg, Src, Event, Cpu, add64, run, block, signed_ltb}
use rw_sep.Machine.Words.{signed_ltb-true, signed_ltb-false}
use rw_sep.Memaccess.Rounds.{Traces, pieces}
use rw_sep.Memaccess.Sequential.{seq_inner, seq_loop}

-- What the accesses to one piece do: events `evs` at address r9 + r8.
pub record Touched (evs : ℕ → List Event) (c c' : Cpu) : Type 0 where
  pub r8 : c'.r8 ≡ c.r8
  pub r9 : c'.r9 ≡ c.r9
  pub trace : c'.trace ≡ c.trace ++ evs (add64 c.r9 c.r8)

-- The events of one inner loop from address `a` up.
abbrev pub chunk : (ℕ → List Event) → (size a : ℕ) → List Event
chunk evs size a = concat_upto (λ j. evs (add64 a (64 * j))) (pieces size)

-- How many rounds the outer loop makes.
abbrev pub chunks : (start_addr end_addr size : ℕ) → ℕ
chunks start_addr end_addr size = suc ((end_addr - start_addr - 1) / size)

-- The rounds reach `end_addr`, and not earlier.
pub reaches_end :
    (size span : ℕ)
    → 0 < size
    → 0 < span
    → (span ≤ size * suc ((span - 1) / size))
      × (size * suc ((span - 1) / size) < span + size)
      × ((j : ℕ) → j < (span - 1) / size → size * suc j < span)
reaches_end size span pos some_span =
    let high = lt-mul-div-succ (span - 1) pos in
    let low = div-mul-le_self (span - 1) size in
    let turned = mul_comm size ((span - 1) / size) in
    (
      omega (arith, high),
      omega (arith, low, turned),
      λ j h.
          let below : size * suc j ≤ size * ((span - 1) / size) =
            mul-le-mul_left size (omega arith) in
          omega (arith, below, low, turned),
    )

module _ (access : List Instr) (evs : ℕ → List Event)
    (touches : (c : Cpu) → Touched evs c (run access c)) (fuel size : ℕ)
    (size_fits : size ≤ 2 ^ 63 - 64) (size_fuel : size < fuel) where
  abbrev advance : Cpu → Cpu
  advance c = let c' = run access c in record c' { r8 = add64 c'.r8 0x40 }

  abbrev cleared : Cpu → Cpu
  cleared c = record c { r8 = 0 }

  -- After `k` pieces.
  pieces_lem :
      (c : Cpu) (k : ℕ)
      → 64 * k < 2 ^ 64
      → ((iterate advance k (cleared c)).r8 ≡ 64 * k)
        × ((iterate advance k (cleared c)).r9 ≡ c.r9)
        × ((iterate advance k (cleared c)).trace
            ≡ c.trace ++ concat_upto (λ j. evs (add64 c.r9 (64 * j))) k)
  unfolding iterate concat_upto
  pieces_lem c zero fits = (omega arith, refl, sym (append-nil c.trace))
  pieces_lem c (suc k) fits =
      let before = pieces_lem c k (omega arith) in
      let last = touches (iterate advance k (cleared c)) in
      (
        omega (arith, last.r8, before.0),
        last.r9 ∙ before.1,
        last.trace ∙ rw (before.2, before.1, before.0) (append_assoc c.trace _ _),
      )

  abbrev swept : Cpu → Cpu
  swept c = iterate advance (pieces size) (cleared c)

  seq_inner_lem : (c : Cpu) → seq_inner fuel access size c ≡ some (swept c)
  unfolding seq_inner run
  seq_inner_lem c =
      let n : ℕ = (size - 1) / 64 in
      do_while-iterate (λ c'. block access c' >>= block (Instr.add Reg.r8 (Src.imm 0x40) ∷ []))
        advance (λ c'. signed_ltb c'.r8 size) (cleared c) n (λ t. refl)
        (λ j h.
          rw ((pieces_lem c (suc j) (omega arith)).0)
            (signed_ltb-true (64 * suc j) size (omega arith) (omega arith)))
        (rw ((pieces_lem c (suc n) (omega arith)).0)
          (signed_ltb-false (64 * suc n) size (omega arith) (omega arith)))
        fuel (omega arith)

  abbrev onward : Cpu → Cpu
  onward c = record (swept c) { r9 = add64 (swept c).r9 size }

  -- After `k` rounds from `a`.
  rounds_lem :
      (a : ℕ) (c : Cpu)
      → c.r9 ≡ a
      → (k : ℕ) → a + size * k < 2 ^ 64
      → ((iterate onward k c).r9 ≡ a + size * k)
        × ((iterate onward k c).trace
            ≡ c.trace ++ concat_upto (λ i. chunk evs size (a + size * i)) k)
  unfolding iterate concat_upto
  rounds_lem a c here zero fits = (omega (arith, here), sym (append-nil c.trace))
  rounds_lem a c here (suc k) fits =
      let before = rounds_lem a c here k (omega arith) in
      let last = pieces_lem (iterate onward k c) (pieces size) (omega arith) in
      (
        omega (arith, last.1, before.0),
        last.2
            ∙ ap (λ r. (iterate onward k c).trace ++ chunk evs size r) before.0
            ∙ ap (λ es. es ++ chunk evs size (a + size * k)) before.1
            ∙ append_assoc c.trace _ _,
      )

  pub seq_loop-Traces :
      (prologue : List Instr) (start_addr end_addr : ℕ) (c : Cpu)
      → ((run (Instr.mov Reg.r9 (Src.imm start_addr) ∷ prologue) c).r9 ≡ start_addr)
      → ((run (Instr.mov Reg.r9 (Src.imm start_addr) ∷ prologue) c).trace ≡ c.trace)
      → 0 < size
      → start_addr < end_addr
      → end_addr + size ≤ 2 ^ 63
      → end_addr - start_addr < fuel
      → Traces (seq_loop fuel prologue access start_addr end_addr size c) c (
          concat_upto
            (λ i. chunk evs size (start_addr + size * i))
            (chunks start_addr end_addr size))
  unfolding seq_loop
  seq_loop-Traces prologue start_addr end_addr c here old pos order fits enough =
      let c0 = run (Instr.mov Reg.r9 (Src.imm start_addr) ∷ prologue) c in
      let span : ℕ = end_addr - start_addr in
      let n : ℕ = (span - 1) / size in
      let r = reaches_end size span pos (omega arith) in
      let few = div-le_self (span - 1) size in
      let final = rounds_lem start_addr c0 here (suc n) (omega (arith, r.1)) in
      (
        iterate onward (suc n) c0,
        do_while-iterate
            (λ c'. seq_inner fuel access size c' >>= block (Instr.add Reg.r9 (Src.imm size) ∷ []))
            onward (λ c'. signed_ltb c'.r9 end_addr) c0 n
            (λ t. rw (seq_inner_lem t) (unfold run in refl))
            (λ j h.
              let short = r.2 j h in
              rw ((rounds_lem start_addr c0 here (suc j) (omega (arith, short))).0) (
                signed_ltb-true (start_addr + size * suc j) end_addr (omega (arith, short))
                  (omega arith)))
            (rw final.0 (
              signed_ltb-false (start_addr + size * suc n) end_addr (omega (arith, r.0))
                (omega (arith, r.1))))
            fuel (omega (arith, few)),
        final.1
            ∙ ap
                (λ es.
                  es
                  ++ concat_upto (λ i. chunk evs size (start_addr + size * i))
                      (chunks start_addr end_addr size))
                old,
      )
