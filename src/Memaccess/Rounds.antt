-- ===== src/Memaccess/Rounds.antt =====
-- The outer loop of the stride kernels of OptaneStudy/src/memaccess.c: each round sets r9 to
-- start_addr + r8, works from there, waits, and moves r8 on by `skip`.
use rw_sep.Prelude.{
  ℕ, zero, suc, ◌-◌, ◌*◌, ◌/◌, ◌^◌, ◌≤◌, ◌<◌, Option, List, [], ◌∷◌, ◌++◌, ◌≡◌, refl, ap, ◌∙◌, sym,
  some, append-nil, append_assoc, concat_upto, arith,
}
use rw_sep.Prelude.Loops.{iterate}
use rw_sep.Machine.{Instr, Reg, Event, Cpu, add64, run}
use rw_sep.Machine.Faults.{NoFault}
use rw_sep.Memaccess.Stride.{access_loop, delay_loop, fence_and_clear, fenced}
use rw_sep.Memaccess.Advance.{Moved, iterate-Swept, access_loop-iterate}

-- A loop that tests behind its body runs once even for 0.
abbrev pub at_least_one : ℕ → ℕ
at_least_one n = suc (n - 1)

-- How many pieces of 64 bytes cover `size` bytes, and at least one.
abbrev pub pieces : ℕ → ℕ
pieces size = suc ((size - 1) / 64)

-- A normal end with `es` appended to the trace.
abbrev pub Traces : Option Cpu → Cpu → List Event → Type 0
Traces r c es = (c' : Cpu) × (r ≡ some c') × (c'.trace ≡ c.trace ++ es)

-- A normal end with `es` appended to the trace, of which no access faults.
abbrev pub Completes : Option Cpu → Cpu → List Event → Type 0
Completes r c es = Traces r c es × NoFault es

-- What a round's accesses do: events `evs` from address r9, the outer registers kept, r10 cleared.
pub record Worked (evs : ℕ → List Event) (c c' : Cpu) : Type 0 where
  pub r8 : c'.r8 ≡ c.r8
  pub r9 : c'.r9 ≡ c.r9
  pub r11 : c'.r11 ≡ c.r11
  pub r10 : c'.r10 ≡ 0
  pub trace : c'.trace ≡ c.trace ++ evs c.r9

abbrev pub Works : (Cpu → Option Cpu) → (ℕ → List Event) → Type 0
Works work evs = (c : Cpu) → c.r10 ≡ 0 → (c' : Cpu) × (work c ≡ some c') × Worked evs c c'

-- The events of one inner loop with its fence.
abbrev pub sweep : (ℕ → List Event) → ℕ → ℕ → List Event
sweep evs size a = concat_upto (λ j. evs (add64 a (64 * j))) (pieces size) ++ Event.mfence ∷ []

pub fenced-Works :
    (access : List Instr) (evs : ℕ → List Event)
    → ((c : Cpu) → Moved 64 evs c (run access c))
    → (size fuel : ℕ) → size ≤ 2 ^ 63 - 64
    → size < fuel
    → Works (fenced fuel access size) (sweep evs size)
unfolding fenced fence_and_clear run
fenced-Works access evs moves size fuel fits enough c z =
    let n : ℕ = (size - 1) / 64 in
    let s = iterate-Swept access 64 evs moves c (suc n) z (omega arith) in
    let e =
      access_loop-iterate access 64 evs moves c size n fuel z (λ j h. omega arith) (omega arith)
        (omega arith) (omega arith) in
    (
      record (iterate (run access) (suc n) c) {
        trace = (iterate (run access) (suc n) c).trace ++ Event.mfence ∷ [];
        r10 = 0;
      },
      rw e,
      record {
        r8 = s.r8;
        r9 = s.r9;
        r11 = s.r11;
        r10 = refl;
        trace = rw s.trace (append_assoc c.trace _ _);
      },
    )

nothing : ℕ → List Event
nothing a = []

concat_upto-nothing : (at : ℕ → ℕ) (k : ℕ) → concat_upto (λ i. nothing (at i)) k ≡ []
unfolding concat_upto nothing
concat_upto-nothing at zero = refl
concat_upto-nothing at (suc k) = rw (concat_upto-nothing at k)

inc-Moved : (c : Cpu) → Moved 1 nothing c (run (Instr.inc Reg.r10 ∷ []) c)
unfolding run nothing
inc-Moved c = record {
  r8 = refl;
  r9 = refl;
  r11 = refl;
  r10 = refl;
  trace = sym (append-nil c.trace);
}

pub delay_loop_ends :
    (c : Cpu) (delay fuel : ℕ)
    → c.r10 ≡ 0
    → delay < 2 ^ 63
    → delay < fuel
    → (c' : Cpu) × (delay_loop fuel delay c ≡ some c')
      × (c'.r8 ≡ c.r8)
      × (c'.r11 ≡ c.r11)
      × (c'.trace ≡ c.trace)
unfolding delay_loop access_loop
delay_loop_ends c delay fuel z fits enough =
    let s =
      iterate-Swept (Instr.inc Reg.r10 ∷ []) 1 nothing inc-Moved c (at_least_one delay) z
        (omega arith) in
    (
      iterate (run (Instr.inc Reg.r10 ∷ [])) (at_least_one delay) c,
      access_loop-iterate (Instr.inc Reg.r10 ∷ []) 1 nothing inc-Moved c delay (delay - 1) fuel z
          (λ j h. omega arith) (omega arith) (omega arith) (omega arith),
      s.r8,
      s.r11,
      s.trace
          ∙ ap (λ es. c.trace ++ es)
              (concat_upto-nothing (λ i. add64 c.r9 (1 * i)) (at_least_one delay))
          ∙ append-nil c.trace,
    )
