-- ===== src/Memaccess/Stride.antt =====
-- `stride_load`, `stride_nt`, `stride_store`, `stride_storeclwb`, `clwb_nt_mixed` and
-- `stride_read_after_write` of OptaneStudy/src/memaccess.c. Their assembly is one text but for the
-- access macros and the loading of zmm0, so it is written once, over these.
use rw_sep.Prelude.{ℕ, Option, List, [], ◌∷◌, ◌++◌}
use rw_sep.Prelude.Loops.{do_while, ◌>>=◌}
use rw_sep.Machine.{Instr, Reg, Src, Addr, Cpu, block, signed_ltb}
use rw_sep.Memaccess.Macros.{piece, sizebtld_64, sizebtnt_64, sizebtst_64, sizebtstflush_64}

-- The inner loop: accesses until r10 reaches `size`.
unfoldable pub access_loop : ℕ → List Instr → ℕ → Cpu → Option Cpu
access_loop fuel access size = do_while fuel (block access) (λ c. signed_ltb c.r10 size)

-- The delay loop counts r10 up to `delay`.
unfoldable pub delay_loop : ℕ → ℕ → Cpu → Option Cpu
delay_loop fuel delay = do_while fuel (block (Instr.inc Reg.r10 ∷ [])) (λ c. signed_ltb c.r10 delay)

unfoldable pub enter_round : ℕ → List Instr
enter_round start_addr =
    Instr.lea (Addr.indexed 0 (Src.imm start_addr) Reg.r8 1) Reg.r9 ∷ Instr.clear Reg.r10 ∷ []

unfoldable pub leave_round : ℕ → List Instr
leave_round skip = Instr.add Reg.r8 (Src.imm skip) ∷ Instr.inc Reg.r11 ∷ []

unfoldable pub fence_and_clear : List Instr
fence_and_clear = Instr.mfence ∷ Instr.clear Reg.r10 ∷ []

unfoldable pub clear_counters : List Instr
clear_counters = Instr.clear Reg.r8 ∷ Instr.clear Reg.r11 ∷ []

-- `movq %[start_addr], %%xmm0`.
unfoldable pub load_zmm0 : ℕ → List Instr
load_zmm0 start_addr = Instr.movq_to_vec (Src.imm start_addr) 0 ∷ []

-- One round of the outer loop, with the accesses and their fences as `work`.
unfoldable pub stride_round :
    ℕ → (Cpu → Option Cpu) → (start_addr skip delay : ℕ) → Cpu → Option Cpu
stride_round fuel work start_addr skip delay c =
    block (enter_round start_addr) c >>= work >>= delay_loop fuel delay >>= block (leave_round skip)

unfoldable pub stride_loop :
    ℕ → List Instr → (Cpu → Option Cpu) → (start_addr skip delay count : ℕ) → Cpu → Option Cpu
stride_loop fuel prologue work start_addr skip delay count c =
    block prologue c
    >>= do_while fuel (stride_round fuel work start_addr skip delay) (λ c'. signed_ltb c'.r11 count)

-- One inner loop and its fence.
unfoldable pub fenced : ℕ → List Instr → ℕ → Cpu → Option Cpu
fenced fuel access size c = access_loop fuel access size c >>= block fence_and_clear

unfoldable pub stride_load : ℕ → (start_addr size skip delay count : ℕ) → Cpu → Option Cpu
stride_load fuel start_addr size skip delay count =
    stride_loop fuel clear_counters (fenced fuel sizebtld_64 size) start_addr skip delay count

unfoldable pub stride_nt : ℕ → (start_addr size skip delay count : ℕ) → Cpu → Option Cpu
stride_nt fuel start_addr size skip delay count =
    stride_loop fuel (clear_counters ++ load_zmm0 start_addr) (fenced fuel sizebtnt_64 size)
      start_addr skip delay count

unfoldable pub stride_store : ℕ → (start_addr size skip delay count : ℕ) → Cpu → Option Cpu
stride_store fuel start_addr size skip delay count =
    stride_loop fuel (clear_counters ++ load_zmm0 start_addr) (fenced fuel sizebtst_64 size)
      start_addr skip delay count

unfoldable pub stride_storeclwb : ℕ → (start_addr size skip delay count : ℕ) → Cpu → Option Cpu
stride_storeclwb fuel start_addr size skip delay count =
    stride_loop fuel (clear_counters ++ load_zmm0 start_addr) (fenced fuel sizebtstflush_64 size)
      start_addr skip delay count

-- The macro's text stands in the body of this one.
unfoldable pub clwb_nt_mixed : ℕ → (start_addr size skip delay count : ℕ) → Cpu → Option Cpu
clwb_nt_mixed fuel start_addr size skip delay count =
    stride_loop fuel (clear_counters ++ load_zmm0 start_addr)
      (fenced fuel
        (Instr.vmovdqa_store 8 0 (piece 0x0)
          ∷ Instr.clwb (piece 0x0)
          ∷ Instr.add Reg.r10 (Src.imm 0x40)
          ∷ [])
        size)
      start_addr skip delay count

-- Each round stores and flushes its lines, and then streams over them.
unfoldable pub stride_read_after_write :
    ℕ → (start_addr size skip delay count : ℕ) → Cpu → Option Cpu
stride_read_after_write fuel start_addr size skip delay count =
    stride_loop fuel (clear_counters ++ load_zmm0 start_addr)
      (λ c. fenced fuel sizebtstflush_64 size c >>= fenced fuel sizebtnt_64 size) start_addr skip
      delay count
