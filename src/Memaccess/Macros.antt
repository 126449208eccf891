-- ===== src/Memaccess/Macros.antt =====
-- The access macros of OptaneStudy/src/memaccess.h. Each accesses one piece after another at
-- r9 + r10 and adds the total to r10.
use rw_sep.Prelude.{ℕ, List, [], ◌∷◌}
use rw_sep.Machine.{Instr, Reg, Src, Addr}

-- `disp(%%r9, %%r10)`.
abbrev pub piece : ℕ → Addr
piece d = Addr.indexed d (Src.reg Reg.r9) Reg.r10 1

unfoldable pub sizebtnt_64 : List Instr
sizebtnt_64 = Instr.vmovnt_store 8 0 (piece 0x0) ∷ Instr.add Reg.r10 (Src.imm 0x40) ∷ []

unfoldable pub sizebtnt_128 : List Instr
sizebtnt_128 =
    Instr.vmovnt_store 8 0 (piece 0x0)
    ∷ Instr.vmovnt_store 8 0 (piece 0x40)
    ∷ Instr.add Reg.r10 (Src.imm 0x80)
    ∷ []

unfoldable pub sizebtnt_256 : List Instr
sizebtnt_256 =
    Instr.vmovnt_store 8 0 (piece 0x0)
    ∷ Instr.vmovnt_store 8 0 (piece 0x40)
    ∷ Instr.vmovnt_store 8 0 (piece 0x80)
    ∷ Instr.vmovnt_store 8 0 (piece 0xc0)
    ∷ Instr.add Reg.r10 (Src.imm 0x100)
    ∷ []

unfoldable pub sizebtnt_512 : List Instr
sizebtnt_512 =
    Instr.vmovnt_store 8 0 (piece 0x0)
    ∷ Instr.vmovnt_store 8 0 (piece 0x40)
    ∷ Instr.vmovnt_store 8 0 (piece 0x80)
    ∷ Instr.vmovnt_store 8 0 (piece 0xc0)
    ∷ Instr.vmovnt_store 8 0 (piece 0x100)
    ∷ Instr.vmovnt_store 8 0 (piece 0x140)
    ∷ Instr.vmovnt_store 8 0 (piece 0x180)
    ∷ Instr.vmovnt_store 8 0 (piece 0x1c0)
    ∷ Instr.add Reg.r10 (Src.imm 0x200)
    ∷ []

unfoldable pub sizebtnt_1024 : List Instr
sizebtnt_1024 =
    Instr.vmovnt_store 8 0 (piece 0x0)
    ∷ Instr.vmovnt_store 8 0 (piece 0x40)
    ∷ Instr.vmovnt_store 8 0 (piece 0x80)
    ∷ Instr.vmovnt_store 8 0 (piece 0xc0)
    ∷ Instr.vmovnt_store 8 0 (piece 0x100)
    ∷ Instr.vmovnt_store 8 0 (piece 0x140)
    ∷ Instr.vmovnt_store 8 0 (piece 0x180)
    ∷ Instr.vmovnt_store 8 0 (piece 0x1c0)
    ∷ Instr.vmovnt_store 8 0 (piece 0x200)
    ∷ Instr.vmovnt_store 8 0 (piece 0x240)
    ∷ Instr.vmovnt_store 8 0 (piece 0x280)
    ∷ Instr.vmovnt_store 8 0 (piece 0x2c0)
    ∷ Instr.vmovnt_store 8 0 (piece 0x300)
    ∷ Instr.vmovnt_store 8 0 (piece 0x340)
    ∷ Instr.vmovnt_store 8 0 (piece 0x380)
    ∷ Instr.vmovnt_store 8 0 (piece 0x3c0)
    ∷ Instr.add Reg.r10 (Src.imm 0x400)
    ∷ []

unfoldable pub sizebtstflush_64 : List Instr
sizebtstflush_64 =
    Instr.vmovdqa_store 8 0 (piece 0x0)
    ∷ Instr.clwb (piece 0x0)
    ∷ Instr.add Reg.r10 (Src.imm 0x40)
    ∷ []

unfoldable pub sizebtstflush_128 : List Instr
sizebtstflush_128 =
    Instr.vmovdqa_store 8 0 (piece 0x0)
    ∷ Instr.clwb (piece 0x0)
    ∷ Instr.vmovdqa_store 8 0 (piece 0x40)
    ∷ Instr.clwb (piece 0x40)
    ∷ Instr.add Reg.r10 (Src.imm 0x80)
    ∷ []

unfoldable pub sizebtstflush_256 : List Instr
sizebtstflush_256 =
    Instr.vmovdqa_store 8 0 (piece 0x0)
    ∷ Instr.clwb (piece 0x0)
    ∷ Instr.vmovdqa_store 8 0 (piece 0x40)
    ∷ Instr.clwb (piece 0x40)
    ∷ Instr.vmovdqa_store 8 0 (piece 0x80)
    ∷ Instr.clwb (piece 0x80)
    ∷ Instr.vmovdqa_store 8 0 (piece 0xc0)
    ∷ Instr.clwb (piece 0xc0)
    ∷ Instr.add Reg.r10 (Src.imm 0x100)
    ∷ []

unfoldable pub sizebtstflush_512 : List Instr
sizebtstflush_512 =
    Instr.vmovdqa_store 8 0 (piece 0x0)
    ∷ Instr.clwb (piece 0x0)
    ∷ Instr.vmovdqa_store 8 0 (piece 0x40)
    ∷ Instr.clwb (piece 0x40)
    ∷ Instr.vmovdqa_store 8 0 (piece 0x80)
    ∷ Instr.clwb (piece 0x80)
    ∷ Instr.vmovdqa_store 8 0 (piece 0xc0)
    ∷ Instr.clwb (piece 0xc0)
    ∷ Instr.vmovdqa_store 8 0 (piece 0x100)
    ∷ Instr.clwb (piece 0x100)
    ∷ Instr.vmovdqa_store 8 0 (piece 0x140)
    ∷ Instr.clwb (piece 0x140)
    ∷ Instr.vmovdqa_store 8 0 (piece 0x180)
    ∷ Instr.clwb (piece 0x180)
    ∷ Instr.vmovdqa_store 8 0 (piece 0x1c0)
    ∷ Instr.clwb (piece 0x1c0)
    ∷ Instr.add Reg.r10 (Src.imm 0x200)
    ∷ []

unfoldable pub sizebtstflush_1024 : List Instr
sizebtstflush_1024 =
    Instr.vmovdqa_store 8 0 (piece 0x0)
    ∷ Instr.clwb (piece 0x0)
    ∷ Instr.vmovdqa_store 8 0 (piece 0x40)
    ∷ Instr.clwb (piece 0x40)
    ∷ Instr.vmovdqa_store 8 0 (piece 0x80)
    ∷ Instr.clwb (piece 0x80)
    ∷ Instr.vmovdqa_store 8 0 (piece 0xc0)
    ∷ Instr.clwb (piece 0xc0)
    ∷ Instr.vmovdqa_store 8 0 (piece 0x100)
    ∷ Instr.clwb (piece 0x100)
    ∷ Instr.vmovdqa_store 8 0 (piece 0x140)
    ∷ Instr.clwb (piece 0x140)
    ∷ Instr.vmovdqa_store 8 0 (piece 0x180)
    ∷ Instr.clwb (piece 0x180)
    ∷ Instr.vmovdqa_store 8 0 (piece 0x1c0)
    ∷ Instr.clwb (piece 0x1c0)
    ∷ Instr.vmovdqa_store 8 0 (piece 0x200)
    ∷ Instr.clwb (piece 0x200)
    ∷ Instr.vmovdqa_store 8 0 (piece 0x240)
    ∷ Instr.clwb (piece 0x240)
    ∷ Instr.vmovdqa_store 8 0 (piece 0x280)
    ∷ Instr.clwb (piece 0x280)
    ∷ Instr.vmovdqa_store 8 0 (piece 0x2c0)
    ∷ Instr.clwb (piece 0x2c0)
    ∷ Instr.vmovdqa_store 8 0 (piece 0x300)
    ∷ Instr.clwb (piece 0x300)
    ∷ Instr.vmovdqa_store 8 0 (piece 0x340)
    ∷ Instr.clwb (piece 0x340)
    ∷ Instr.vmovdqa_store 8 0 (piece 0x380)
    ∷ Instr.clwb (piece 0x380)
    ∷ Instr.vmovdqa_store 8 0 (piece 0x3c0)
    ∷ Instr.clwb (piece 0x3c0)
    ∷ Instr.add Reg.r10 (Src.imm 0x400)
    ∷ []

unfoldable pub sizebtst_64 : List Instr
sizebtst_64 = Instr.vmovdqa_store 8 0 (piece 0x0) ∷ Instr.add Reg.r10 (Src.imm 0x40) ∷ []

unfoldable pub sizebtst_128 : List Instr
sizebtst_128 =
    Instr.vmovdqa_store 8 0 (piece 0x0)
    ∷ Instr.vmovdqa_store 8 0 (piece 0x40)
    ∷ Instr.add Reg.r10 (Src.imm 0x80)
    ∷ []

unfoldable pub sizebtst_256 : List Instr
sizebtst_256 =
    Instr.vmovdqa_store 8 0 (piece 0x0)
    ∷ Instr.vmovdqa_store 8 0 (piece 0x40)
    ∷ Instr.vmovdqa_store 8 0 (piece 0x80)
    ∷ Instr.vmovdqa_store 8 0 (piece 0xc0)
    ∷ Instr.add Reg.r10 (Src.imm 0x100)
    ∷ []

unfoldable pub sizebtst_512 : List Instr
sizebtst_512 =
    Instr.vmovdqa_store 8 0 (piece 0x0)
    ∷ Instr.vmovdqa_store 8 0 (piece 0x40)
    ∷ Instr.vmovdqa_store 8 0 (piece 0x80)
    ∷ Instr.vmovdqa_store 8 0 (piece 0xc0)
    ∷ Instr.vmovdqa_store 8 0 (piece 0x100)
    ∷ Instr.vmovdqa_store 8 0 (piece 0x140)
    ∷ Instr.vmovdqa_store 8 0 (piece 0x180)
    ∷ Instr.vmovdqa_store 8 0 (piece 0x1c0)
    ∷ Instr.add Reg.r10 (Src.imm 0x200)
    ∷ []

unfoldable pub sizebtst_1024 : List Instr
sizebtst_1024 =
    Instr.vmovdqa_store 8 0 (piece 0x0)
    ∷ Instr.vmovdqa_store 8 0 (piece 0x40)
    ∷ Instr.vmovdqa_store 8 0 (piece 0x80)
    ∷ Instr.vmovdqa_store 8 0 (piece 0xc0)
    ∷ Instr.vmovdqa_store 8 0 (piece 0x100)
    ∷ Instr.vmovdqa_store 8 0 (piece 0x140)
    ∷ Instr.vmovdqa_store 8 0 (piece 0x180)
    ∷ Instr.vmovdqa_store 8 0 (piece 0x1c0)
    ∷ Instr.vmovdqa_store 8 0 (piece 0x200)
    ∷ Instr.vmovdqa_store 8 0 (piece 0x240)
    ∷ Instr.vmovdqa_store 8 0 (piece 0x280)
    ∷ Instr.vmovdqa_store 8 0 (piece 0x2c0)
    ∷ Instr.vmovdqa_store 8 0 (piece 0x300)
    ∷ Instr.vmovdqa_store 8 0 (piece 0x340)
    ∷ Instr.vmovdqa_store 8 0 (piece 0x380)
    ∷ Instr.vmovdqa_store 8 0 (piece 0x3c0)
    ∷ Instr.add Reg.r10 (Src.imm 0x400)
    ∷ []

unfoldable pub sizebtld_64 : List Instr
sizebtld_64 = Instr.vmovntdqa 8 (piece 0x0) 0 ∷ Instr.add Reg.r10 (Src.imm 0x40) ∷ []

unfoldable pub sizebtld_128 : List Instr
sizebtld_128 =
    Instr.vmovntdqa 8 (piece 0x0) 0
    ∷ Instr.vmovntdqa 8 (piece 0x40) 1
    ∷ Instr.add Reg.r10 (Src.imm 0x80)
    ∷ []

unfoldable pub sizebtld_256 : List Instr
sizebtld_256 =
    Instr.vmovntdqa 8 (piece 0x0) 0
    ∷ Instr.vmovntdqa 8 (piece 0x40) 1
    ∷ Instr.vmovntdqa 8 (piece 0x80) 2
    ∷ Instr.vmovntdqa 8 (piece 0xc0) 3
    ∷ Instr.add Reg.r10 (Src.imm 0x100)
    ∷ []

unfoldable pub sizebtld_512 : List Instr
sizebtld_512 =
    Instr.vmovntdqa 8 (piece 0x0) 0
    ∷ Instr.vmovntdqa 8 (piece 0x40) 1
    ∷ Instr.vmovntdqa 8 (piece 0x80) 2
    ∷ Instr.vmovntdqa 8 (piece 0xc0) 3
    ∷ Instr.vmovntdqa 8 (piece 0x100) 4
    ∷ Instr.vmovntdqa 8 (piece 0x140) 5
    ∷ Instr.vmovntdqa 8 (piece 0x180) 6
    ∷ Instr.vmovntdqa 8 (piece 0x1c0) 7
    ∷ Instr.add Reg.r10 (Src.imm 0x200)
    ∷ []

unfoldable pub sizebtld_1024 : List Instr
sizebtld_1024 =
    Instr.vmovntdqa 8 (piece 0x0) 0
    ∷ Instr.vmovntdqa 8 (piece 0x40) 1
    ∷ Instr.vmovntdqa 8 (piece 0x80) 2
    ∷ Instr.vmovntdqa 8 (piece 0xc0) 3
    ∷ Instr.vmovntdqa 8 (piece 0x100) 4
    ∷ Instr.vmovntdqa 8 (piece 0x140) 5
    ∷ Instr.vmovntdqa 8 (piece 0x180) 6
    ∷ Instr.vmovntdqa 8 (piece 0x1c0) 7
    ∷ Instr.vmovntdqa 8 (piece 0x200) 8
    ∷ Instr.vmovntdqa 8 (piece 0x240) 9
    ∷ Instr.vmovntdqa 8 (piece 0x280) 10
    ∷ Instr.vmovntdqa 8 (piece 0x2c0) 11
    ∷ Instr.vmovntdqa 8 (piece 0x300) 12
    ∷ Instr.vmovntdqa 8 (piece 0x340) 13
    ∷ Instr.vmovntdqa 8 (piece 0x380) 14
    ∷ Instr.vmovntdqa 8 (piece 0x3c0) 15
    ∷ Instr.add Reg.r10 (Src.imm 0x400)
    ∷ []
