-- ===== src/Memaccess/Random.antt =====
-- `RandLFSR64`, `sizebw_load`, `sizebw_nt`, `sizebw_store` and `sizebw_storeclwb` of
-- OptaneStudy/src/memaccess.c. The four copies of the body that each of them unrolls, and the four
-- functions, are one text but for the access macro and the loading of zmm0, so it is written once.
-- `random` is the address of the seed. A plain access to it is one of 8 bytes.
pub mod Lfsr
pub mod Draws
pub mod Loops
pub mod Kernels
pub mod Seeds
use rw_sep.Prelude.{ℕ, Option, some, List, [], ◌∷◌, ◌++◌}
use rw_sep.Prelude.Loops.{do_while, ◌>>=◌}
use rw_sep.Machine.{Instr, Reg, Src, Addr, Cpu, block, signed_ltb}
use rw_sep.Memaccess.Macros.{sizebtld_512, sizebtnt_512, sizebtst_512, sizebtstflush_512}
use rw_sep.Memaccess.Stride.{access_loop, enter_round, load_zmm0}

abbrev pub lfsr_mask : ℕ
lfsr_mask = 0xd800000000000000

unfoldable pub rand_lfsr64 : (random access_mask : ℕ) → List Instr
rand_lfsr64 random access_mask =
    Instr.mov_load (Addr.based 0 (Src.imm random)) Reg.r9
    ∷ Instr.mov Reg.r12 (Src.reg Reg.r9)
    ∷ Instr.shr Reg.r9
    ∷ Instr.andl Reg.r12 0x1
    ∷ Instr.neg Reg.r12
    ∷ Instr.and Reg.r12 (Src.reg Reg.rcx)
    ∷ Instr.xor Reg.r12 (Src.reg Reg.r9)
    ∷ Instr.mov_store Reg.r12 (Addr.based 0 (Src.imm random))
    ∷ Instr.mov Reg.r8 (Src.reg Reg.r12)
    ∷ Instr.and Reg.r8 (Src.imm access_mask)
    ∷ []

-- One of the four copies: a draw, the inner loop, and the fence.
unfoldable pub random_access :
    ℕ → List Instr → (start_addr size random access_mask : ℕ) → Cpu → Option Cpu
random_access fuel access start_addr size random access_mask c =
    block (rand_lfsr64 random access_mask ++ enter_round start_addr) c
    >>= access_loop fuel access size
    >>= block (Instr.mfence ∷ [])

unfoldable pub sizebw_round :
    ℕ → List Instr → (start_addr size random access_mask : ℕ) → Cpu → Option Cpu
sizebw_round fuel access start_addr size random access_mask c =
    random_access fuel access start_addr size random access_mask c
    >>= random_access fuel access start_addr size random access_mask
    >>= random_access fuel access start_addr size random access_mask
    >>= random_access fuel access start_addr size random access_mask
    >>= block (Instr.add Reg.r11 (Src.imm 4) ∷ [])

unfoldable pub sizebw_loop :
    ℕ → List Instr → List Instr → (start_addr size count random access_mask : ℕ) → Cpu → Option Cpu
sizebw_loop fuel prologue access start_addr size count random access_mask c =
    block prologue c
    >>= do_while fuel (sizebw_round fuel access start_addr size random access_mask)
        (λ c'. signed_ltb c'.r11 count)

unfoldable pub sizebw_load : ℕ → (start_addr size count random access_mask : ℕ) → Cpu → Option Cpu
sizebw_load fuel start_addr =
    sizebw_loop fuel
      (Instr.mov Reg.rcx (Src.imm lfsr_mask) ∷ Instr.clear Reg.r8 ∷ Instr.clear Reg.r11 ∷ [])
      sizebtld_512 start_addr

-- The prologue of the other three.
unfoldable pub store_prologue : ℕ → List Instr
store_prologue start_addr =
    Instr.mov Reg.rcx (Src.imm lfsr_mask) ∷ Instr.clear Reg.r11 ∷ load_zmm0 start_addr

unfoldable pub sizebw_nt : ℕ → (start_addr size count random access_mask : ℕ) → Cpu → Option Cpu
sizebw_nt fuel start_addr = sizebw_loop fuel (store_prologue start_addr) sizebtnt_512 start_addr

unfoldable pub sizebw_store : ℕ → (start_addr size count random access_mask : ℕ) → Cpu → Option Cpu
sizebw_store fuel start_addr = sizebw_loop fuel (store_prologue start_addr) sizebtst_512 start_addr

unfoldable pub sizebw_storeclwb :
    ℕ → (start_addr size count random access_mask : ℕ) → Cpu → Option Cpu
sizebw_storeclwb fuel start_addr =
    sizebw_loop fuel (store_prologue start_addr) sizebtstflush_512 start_addr
