-- ===== src/Latency/Macros.antt =====
-- The macros of OptaneStudy/src/common.h that its kernels are made of, and the C function round the
-- assembly: `uint64_t t1 = 0, t2 = 0; asm volatile (…); return t2 - t1;`.
-- The load of the constant operand `value` from the stack is not recorded as an access.
use rw_sep.Prelude.{ℕ, zero, suc, List, [], ◌∷◌, ◌++◌, ◌*◌}
use rw_sep.Machine.{Instr, Reg, Src, Addr, Cpu, run, sub64}

-- A kernel's assembly: `before`, TIMING_BEG, `timed`, TIMING_END.
pub record Code : Type 0 where
  pub before : List Instr
  pub timed : List Instr

abbrev pub Kernel : Type 0
Kernel = ℕ → Code

-- `k*8(%%rsi)`.
abbrev pub at : ℕ → Addr
at k = Addr.based k (Src.reg Reg.rsi)

abbrev pub value_word : ℕ
value_word = 0xC0FFEEEEBABE0000

unfoldable pub load_value : ℕ → List Instr
load_value v = Instr.vbroadcastsd v 0 ∷ []

unfoldable pub load_addr : ℕ → List Instr
load_addr addr = Instr.mov Reg.rsi (Src.imm addr) ∷ Instr.mfence ∷ []

unfoldable pub flush_cache_line : List Instr
flush_cache_line =
    Instr.clflush (at (0 * 32))
    ∷ Instr.clflush (at (2 * 32))
    ∷ Instr.clflush (at (4 * 32))
    ∷ Instr.clflush (at (6 * 32))
    ∷ Instr.mfence
    ∷ []

unfoldable pub load_cache_line : List Instr
load_cache_line =
    Instr.movq_load (at (0 * 8)) Reg.rdx
    ∷ Instr.movq_load (at (1 * 8)) Reg.rdx
    ∷ Instr.movq_load (at (2 * 8)) Reg.rdx
    ∷ Instr.movq_load (at (3 * 8)) Reg.rdx
    ∷ Instr.movq_load (at (4 * 8)) Reg.rdx
    ∷ Instr.movq_load (at (5 * 8)) Reg.rdx
    ∷ Instr.movq_load (at (6 * 8)) Reg.rdx
    ∷ Instr.movq_load (at (7 * 8)) Reg.rdx
    ∷ Instr.movq_load (at (8 * 8)) Reg.rdx
    ∷ Instr.movq_load (at (9 * 8)) Reg.rdx
    ∷ Instr.movq_load (at (10 * 8)) Reg.rdx
    ∷ Instr.movq_load (at (11 * 8)) Reg.rdx
    ∷ Instr.movq_load (at (12 * 8)) Reg.rdx
    ∷ Instr.movq_load (at (13 * 8)) Reg.rdx
    ∷ Instr.movq_load (at (14 * 8)) Reg.rdx
    ∷ Instr.movq_load (at (15 * 8)) Reg.rdx
    ∷ Instr.movq_load (at (16 * 8)) Reg.rdx
    ∷ Instr.movq_load (at (17 * 8)) Reg.rdx
    ∷ Instr.movq_load (at (18 * 8)) Reg.rdx
    ∷ Instr.movq_load (at (19 * 8)) Reg.rdx
    ∷ Instr.movq_load (at (20 * 8)) Reg.rdx
    ∷ Instr.movq_load (at (21 * 8)) Reg.rdx
    ∷ Instr.movq_load (at (22 * 8)) Reg.rdx
    ∷ Instr.movq_load (at (23 * 8)) Reg.rdx
    ∷ Instr.movq_load (at (24 * 8)) Reg.rdx
    ∷ Instr.movq_load (at (25 * 8)) Reg.rdx
    ∷ Instr.movq_load (at (26 * 8)) Reg.rdx
    ∷ Instr.movq_load (at (27 * 8)) Reg.rdx
    ∷ Instr.movq_load (at (28 * 8)) Reg.rdx
    ∷ Instr.movq_load (at (29 * 8)) Reg.rdx
    ∷ Instr.movq_load (at (30 * 8)) Reg.rdx
    ∷ Instr.movq_load (at (31 * 8)) Reg.rdx
    ∷ Instr.mfence
    ∷ []

unfoldable pub nops : ℕ → List Instr
nops zero = []
nops (suc n) = Instr.nop ∷ nops n

-- Seven lines of six `nop`.
unfoldable pub clear_pipeline : List Instr
unfolding nops
clear_pipeline = nops 42

unfoldable pub timing_beg : List Instr
timing_beg =
    Instr.rdtscp ∷ Instr.lfence ∷ Instr.movl Reg.r9 Reg.rdx ∷ Instr.movl Reg.r8 Reg.rax ∷ []

unfoldable pub timing_end : List Instr
timing_end =
    Instr.mfence
    ∷ Instr.rdtscp
    ∷ Instr.lfence
    ∷ Instr.shl Reg.rdx 32
    ∷ Instr.or Reg.rdx (Src.reg Reg.rax)
    ∷ Instr.movl Reg.rax Reg.r9
    ∷ Instr.shl Reg.rax 32
    ∷ Instr.or Reg.rax (Src.reg Reg.r8)
    ∷ Instr.mov Reg.t1 (Src.reg Reg.rax)
    ∷ Instr.mov Reg.t2 (Src.reg Reg.rdx)
    ∷ []

unfoldable pub text : Code → List Instr
unfolding timing_beg timing_end
text k = k.before ++ (timing_beg ++ (k.timed ++ timing_end))

-- The call of a kernel: what it returns, and the state that it leaves.
unfoldable pub call : Code → Cpu → ℕ × Cpu
unfolding text
call k c = let c' = run (text k) (record c { t1 = 0; t2 = 0 }) in (sub64 c'.t2 c'.t1, c')
