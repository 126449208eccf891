-- ===== src/Memaccess/Sequential.antt =====
-- `seq_load`, `seq_store`, `seq_clwb` and `seq_nt` of OptaneStudy/src/memaccess.c. Their assembly
-- is one text but for the accesses and the loading of zmm0, so it is written once, over these.
pub mod Sweeps
pub mod Kernels
use rw_sep.Prelude.{ℕ, Option, List, [], ◌∷◌}
use rw_sep.Prelude.Loops.{do_while, ◌>>=◌}
use rw_sep.Machine.{Instr, Reg, Src, Addr, Cpu, block, signed_ltb}
use rw_sep.Memaccess.Stride.{load_zmm0}

-- `disp(%%r9, %%r8)`.
abbrev pub seq_piece : Addr
seq_piece = Addr.indexed 0x0 (Src.reg Reg.r9) Reg.r8 1

-- The inner loop of the `seq_` functions, whose accesses to one piece are `access`.
unfoldable pub seq_inner : ℕ → List Instr → ℕ → Cpu → Option Cpu
seq_inner fuel access size c =
    block (Instr.clear Reg.r8 ∷ []) c
    >>= do_while fuel (λ c'. block access c' >>= block (Instr.add Reg.r8 (Src.imm 0x40) ∷ []))
        (λ c'. signed_ltb c'.r8 size)

unfoldable pub seq_loop :
    ℕ → List Instr → List Instr → (start_addr end_addr size : ℕ) → Cpu → Option Cpu
seq_loop fuel prologue access start_addr end_addr size c =
    block (Instr.mov Reg.r9 (Src.imm start_addr) ∷ prologue) c
    >>= do_while fuel
        (λ c'. seq_inner fuel access size c' >>= block (Instr.add Reg.r9 (Src.imm size) ∷ []))
        (λ c'. signed_ltb c'.r9 end_addr)

unfoldable pub seq_load : ℕ → (start_addr end_addr size : ℕ) → Cpu → Option Cpu
seq_load fuel start_addr end_addr size =
    seq_loop fuel [] (Instr.vmovntdqa 8 seq_piece 0 ∷ []) start_addr end_addr size

unfoldable pub seq_store : ℕ → (start_addr end_addr size : ℕ) → Cpu → Option Cpu
seq_store fuel start_addr end_addr size =
    seq_loop fuel (load_zmm0 start_addr)
      (Instr.vmovdqa_store 8 0 seq_piece ∷ Instr.clwb seq_piece ∷ []) start_addr end_addr size

unfoldable pub seq_clwb : ℕ → (start_addr end_addr size : ℕ) → Cpu → Option Cpu
seq_clwb fuel start_addr end_addr size =
    seq_loop fuel (load_zmm0 start_addr)
      (Instr.vmovdqa_store 8 0 seq_piece ∷ Instr.clwb seq_piece ∷ []) start_addr end_addr size

unfoldable pub seq_nt : ℕ → (start_addr end_addr size : ℕ) → Cpu → Option Cpu
seq_nt fuel start_addr end_addr size =
    seq_loop fuel (load_zmm0 start_addr) (Instr.vmovnt_store 8 0 seq_piece ∷ []) start_addr end_addr
      size
