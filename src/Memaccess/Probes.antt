-- ===== src/Memaccess/Probes.antt =====
-- `cachefence`, `cacheprobe` and `imcprobe` of OptaneStudy/src/memaccess.c. A label and its `jl`
-- are a `do_while`.
pub mod Lines
pub mod Flushes
pub mod Fences
pub mod Batches
use rw_sep.Prelude.{ℕ, Option, List, [], ◌∷◌}
use rw_sep.Prelude.Loops.{do_while, ◌>>=◌}
use rw_sep.Machine.{Instr, Reg, Src, Addr, Cpu, block, signed_ltb}
use rw_sep.Memaccess.Stride.{load_zmm0}

-- `0x0(%%r8)` and `0x40(%%r8)`.
abbrev pub at_r8 : ℕ → Addr
at_r8 d = Addr.based d (Src.reg Reg.r8)

unfoldable pub cacheprobe_body : (stride : ℕ) → List Instr
cacheprobe_body stride =
    Instr.vmovdqa_store 8 0 (at_r8 0x0)
    ∷ Instr.clflush (at_r8 0x0)
    ∷ Instr.vmovdqa_store 8 0 (at_r8 0x40)
    ∷ Instr.clflush (at_r8 0x40)
    ∷ Instr.add Reg.r8 (Src.imm stride)
    ∷ []

unfoldable pub cacheprobe : ℕ → (start_addr end_addr stride : ℕ) → Cpu → Option Cpu
cacheprobe fuel start_addr end_addr stride c =
    block (Instr.mov Reg.r8 (Src.imm start_addr) ∷ load_zmm0 start_addr) c
    >>= do_while fuel (block (cacheprobe_body stride)) (λ c'. signed_ltb c'.r8 end_addr)
    >>= block (Instr.mfence ∷ [])

unfoldable pub imcprobe_body : List Instr
imcprobe_body = Instr.vmovnt_store 8 0 (at_r8 0x0) ∷ Instr.add Reg.r8 (Src.imm 0x40) ∷ []

-- LOOP2_IMCPROBE and what leads to it.
unfoldable pub imcprobe_inner : ℕ → (start_addr end_addr : ℕ) → Cpu → Option Cpu
imcprobe_inner fuel start_addr end_addr c =
    block (Instr.mov Reg.r8 (Src.imm start_addr) ∷ []) c
    >>= do_while fuel (block imcprobe_body) (λ c'. signed_ltb c'.r8 end_addr)

unfoldable pub imcprobe : ℕ → (start_addr end_addr loop : ℕ) → Cpu → Option Cpu
imcprobe fuel start_addr end_addr loop c =
    block (Instr.clear Reg.r9 ∷ load_zmm0 start_addr) c
    >>= do_while fuel
        (λ c'.
          imcprobe_inner fuel start_addr end_addr c' >>= block (Instr.add Reg.r9 (Src.imm 1) ∷ []))
        (λ c'. signed_ltb c'.r9 loop)

-- `leaq (%[start_addr], %%r9), …`.
abbrev pub start_r9 : ℕ → Addr
start_r9 start_addr = Addr.indexed 0 (Src.imm start_addr) Reg.r9 1

-- CACHEFENCE_WRITEONE.
unfoldable pub write_one : (start_addr : ℕ) → List Instr
write_one start_addr =
    Instr.vmovdqa_store 8 0 (start_r9 start_addr)
    ∷ Instr.add Reg.r9 (Src.imm 0x40)
    ∷ Instr.add Reg.r10 (Src.imm 0x40)
    ∷ Instr.add Reg.r11 (Src.imm 0x40)
    ∷ []

-- CACHEFENCE_FLUSHONE.
unfoldable pub flush_one : List Instr
flush_one = Instr.clwb (Addr.based 0 (Src.reg Reg.rdx)) ∷ Instr.add Reg.rdx (Src.imm 0x40) ∷ []

-- CACHEFENCE_FLUSHBEGIN: one batch of writes and their flushes.
unfoldable pub flush_begin : ℕ → (start_addr cache : ℕ) → Cpu → Option Cpu
flush_begin fuel start_addr cache c =
    block (Instr.clear Reg.r10 ∷ Instr.lea (start_r9 start_addr) Reg.rdx ∷ []) c
    >>= do_while fuel (block (write_one start_addr)) (λ c'. signed_ltb c'.r10 cache)
    >>= block (Instr.lea (start_r9 start_addr) Reg.rcx ∷ [])
    >>= do_while fuel (block flush_one) (λ c'. signed_ltb c'.rdx c'.rcx)

-- CACHEFENCE_FENCEBEGIN: batches until r11 reaches `fence`, and CACHEFENCE_FENCE.
unfoldable pub fence_begin : ℕ → (start_addr cache fence : ℕ) → Cpu → Option Cpu
fence_begin fuel start_addr cache fence c =
    block (Instr.clear Reg.r11 ∷ []) c
    >>= do_while fuel (flush_begin fuel start_addr cache) (λ c'. signed_ltb c'.r11 fence)
    >>= block (Instr.sfence ∷ [])

unfoldable pub cachefence : ℕ → (start_addr size cache fence : ℕ) → Cpu → Option Cpu
cachefence fuel start_addr size cache fence c =
    block (load_zmm0 start_addr) c
    >>= block (Instr.clear Reg.r9 ∷ [])
    >>= do_while fuel (fence_begin fuel start_addr cache fence) (λ c'. signed_ltb c'.r9 size)
