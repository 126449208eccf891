-- ===== src/Memaccess/Chase.antt =====
-- `chasing_storeclwb` and `chasing_loadnt` of OptaneStudy/src/memaccess.c.
pub mod Walk
pub mod Kernels
pub mod Cycle
use rw_sep.Prelude.{ℕ, Option, List, [], ◌∷◌, ◌++◌}
use rw_sep.Prelude.Loops.{do_while, ◌>>=◌}
use rw_sep.Machine.{Instr, Reg, Src, Addr, Cpu, block, signed_ltb}
use rw_sep.Memaccess.Stride.{access_loop, enter_round, leave_round, clear_counters}

-- `0x0(%%r9, %%r12)`.
abbrev pub chased_line : Addr
chased_line = Addr.indexed 0x0 (Src.reg Reg.r9) Reg.r12 1

-- One step of `chasing_storeclwb`: the next position is read from the index, and stored with the
-- line.
unfoldable pub store_link : ℕ → List Instr
store_link cindex =
    Instr.movq_load_vec (Addr.indexed 0 (Src.imm cindex) Reg.r12 8) 0
    ∷ Instr.shl Reg.r12 0x06
    ∷ Instr.vmovdqa_store 8 0 chased_line
    ∷ Instr.clwb chased_line
    ∷ Instr.add Reg.r10 (Src.imm 0x40)
    ∷ Instr.movq_from_vec 0 Reg.r12
    ∷ []

-- One step of `chasing_loadnt`: the next position is the first word of the line.
unfoldable pub load_link : List Instr
load_link =
    Instr.shl Reg.r12 0x06
    ∷ Instr.vmovntdqa 8 chased_line 0
    ∷ Instr.movq_from_vec 0 Reg.r12
    ∷ Instr.add Reg.r10 (Src.imm 0x40)
    ∷ []

-- One round of the outer loop, with the steps `access`, and `close` behind them.
unfoldable pub chasing_round :
    ℕ → List Instr → List Instr → (start_addr size skip : ℕ) → Cpu → Option Cpu
chasing_round fuel access close start_addr size skip c =
    block (enter_round start_addr ++ Instr.clear Reg.r12 ∷ []) c
    >>= access_loop fuel access size
    >>= block (close ++ leave_round skip)

unfoldable pub chasing_storeclwb : ℕ → (start_addr size skip count cindex : ℕ) → Cpu → Option Cpu
chasing_storeclwb fuel start_addr size skip count cindex c =
    block clear_counters c
    >>= do_while fuel
        (chasing_round fuel (store_link cindex) (Instr.mfence ∷ Instr.clear Reg.r10 ∷ []) start_addr
          size skip)
        (λ c'. signed_ltb c'.r11 count)

-- The index has no part in this one.
unfoldable pub chasing_loadnt : ℕ → (start_addr size skip count cindex : ℕ) → Cpu → Option Cpu
chasing_loadnt fuel start_addr size skip count cindex c =
    block clear_counters c
    >>= do_while fuel (chasing_round fuel load_link (Instr.mfence ∷ []) start_addr size skip)
        (λ c'. signed_ltb c'.r11 count)
