-- ===== src/Machine.antt =====
-- The x86-64 instructions of the inline assembly in OptaneStudy/src/memaccess.c and
-- OptaneStudy/src/common.h, over a register file, a memory of 64-bit words and a time-stamp
-- counter. Each access, flush and fence is also recorded in `trace`, in program order. Addresses
-- and registers are 64-bit words, kept as numbers below 2 ^ 64; memory is read and written at
-- 8-byte granularity, by the byte address of each word. Vector registers hold eight words. Whether
-- an access would have faulted for its alignment is told from the trace, by Machine/Faults.
pub mod Words
pub mod Persist
pub mod Faults
use rw_sep.Prelude.{ℕ, ◌+◌, ◌-◌, ◌*◌, ◌/◌, ◌%◌, ◌^◌, bit_and, bit_or, bit_xor}
use rw_sep.Prelude.{Bool, ◌&&◌, Option, some, List, [], ◌∷◌, ◌++◌, ltb, leb, ◌==◌, if◌then◌else◌}

-- 64-bit addition, subtraction and the signed `<` of `cmp` and `jl`.
abbrev pub add64 : ℕ → ℕ → ℕ
add64 a b = (a + b) % 2 ^ 64

abbrev pub sub64 : ℕ → ℕ → ℕ
sub64 a b = (a + 2 ^ 64 - b) % 2 ^ 64

abbrev pub signed_ltb : ℕ → ℕ → Bool
signed_ltb a b = ltb (add64 a (2 ^ 63)) (add64 b (2 ^ 63))

pub data Event : Type 0 where
  load nt_load store nt_store : (address bytes : ℕ) → Event
  clflush clflushopt clwb : (address : ℕ) → Event
  mfence sfence lfence rdtscp : Event

-- `t1` and `t2` are the output operands of the kernels of common.h.
pub data Reg : Type 0 where
  rax rcx rdx rsi r8 r9 r10 r11 r12 t1 t2 : Reg

pub record Cpu : Type 0 where
  pub rax : ℕ
  pub rcx : ℕ
  pub rdx : ℕ
  pub rsi : ℕ
  pub r8 : ℕ
  pub r9 : ℕ
  pub r10 : ℕ
  pub r11 : ℕ
  pub r12 : ℕ
  pub t1 : ℕ
  pub t2 : ℕ
  pub vec : ℕ → ℕ → ℕ
  pub mem : ℕ → ℕ
  pub trace : List Event
  -- The counter's value at each reading, and how many readings were made.
  pub clock : ℕ → ℕ
  pub ticks : ℕ

unfoldable pub get : Reg → Cpu → ℕ
get Reg.rax c = c.rax
get Reg.rcx c = c.rcx
get Reg.rdx c = c.rdx
get Reg.rsi c = c.rsi
get Reg.r8 c = c.r8
get Reg.r9 c = c.r9
get Reg.r10 c = c.r10
get Reg.r11 c = c.r11
get Reg.r12 c = c.r12
get Reg.t1 c = c.t1
get Reg.t2 c = c.t2

unfoldable pub put : Reg → ℕ → Cpu → Cpu
put Reg.rax v c = record c { rax = v }
put Reg.rcx v c = record c { rcx = v }
put Reg.rdx v c = record c { rdx = v }
put Reg.rsi v c = record c { rsi = v }
put Reg.r8 v c = record c { r8 = v }
put Reg.r9 v c = record c { r9 = v }
put Reg.r10 v c = record c { r10 = v }
put Reg.r11 v c = record c { r11 = v }
put Reg.r12 v c = record c { r12 = v }
put Reg.t1 v c = record c { t1 = v }
put Reg.t2 v c = record c { t2 = v }

-- A register, or a constant: an immediate, or an input operand of the assembly block.
pub data Src : Type 0 where
  reg : Reg → Src
  imm : ℕ → Src

unfoldable pub value : Src → Cpu → ℕ
unfolding get
value (reg r) c = get r c
value (imm n) c = n

-- `disp(base)` and `disp(base, index, scale)`.
pub data Addr : Type 0 where
  based : (disp : ℕ) → Src → Addr
  indexed : (disp : ℕ) → Src → Reg → (scale : ℕ) → Addr

unfoldable pub address : Addr → Cpu → ℕ
unfolding value get
address (based d b) c = add64 (value b c) d
address (indexed d b i s) c = add64 (value b c + get i c * s) d

-- `lanes` of a vector access are its 64-bit words: 4 for a ymm register, 8 for a zmm one.
pub data Instr : Type 0 where
  mov add xor and or : Reg → Src → Instr
  -- `xor %r, %r`.
  clear : Reg → Instr
  movl : Reg → Reg → Instr
  andl : Reg → ℕ → Instr
  shl : Reg → ℕ → Instr
  shr inc neg : Reg → Instr
  lea : Addr → Reg → Instr
  mov_load movq_load : Addr → Reg → Instr
  mov_store movq_store : Reg → Addr → Instr
  movq_to_vec : Src → ℕ → Instr
  movq_load_vec : Addr → ℕ → Instr
  movq_from_vec : ℕ → Reg → Instr
  vbroadcastsd : ℕ → ℕ → Instr
  vmovdqa_load vmovntdqa : (lanes : ℕ) → Addr → (v : ℕ) → Instr
  vmovdqa_store vmovnt_store : (lanes : ℕ) → (v : ℕ) → Addr → Instr
  clflush clflushopt clwb : Addr → Instr
  mfence sfence lfence nop rdtscp : Instr

unfoldable pub emit : Event → Cpu → Cpu
emit e c = record c { trace = c.trace ++ e ∷ [] }

-- Words `v 0`, `v 1`, … at the byte addresses a, a + 8, …
unfoldable pub write_words : ℕ → ℕ → (ℕ → ℕ) → (ℕ → ℕ) → ℕ → ℕ
write_words a lanes v m x = if leb a x && ltb x (a + 8 * lanes) then v ((x - a) / 8) else m x

unfoldable pub write_vec : ℕ → (ℕ → ℕ) → (ℕ → ℕ → ℕ) → ℕ → ℕ → ℕ
write_vec n v vec k = if k == n then v else vec k

-- A VEX-encoded write of the low lanes clears the others.
unfoldable pub low_lanes : ℕ → (ℕ → ℕ) → ℕ → ℕ
low_lanes lanes v i = if ltb i lanes then v i else 0

-- `movq` to an xmm register clears its second word and keeps the words above.
unfoldable pub low_word : ℕ → (ℕ → ℕ) → ℕ → ℕ
low_word x old i = if i == 0 then x else if i == 1 then 0 else old i

unfoldable pub load_vec : Bool → ℕ → Addr → ℕ → Cpu → Cpu
unfolding address emit write_vec low_lanes
load_vec nt lanes a n c =
    let p = address a c in
    record c {
      vec = write_vec n (low_lanes lanes (λ i. c.mem (p + 8 * i))) c.vec;
      trace =
          c.trace ++ (if nt then Event.nt_load p (8 * lanes) else Event.load p (8 * lanes)) ∷ [];
    }

unfoldable pub store_vec : Bool → ℕ → ℕ → Addr → Cpu → Cpu
unfolding address emit write_words
store_vec nt lanes n a c =
    let p = address a c in
    record c {
      mem = write_words p lanes (c.vec n) c.mem;
      trace =
          c.trace ++ (if nt then Event.nt_store p (8 * lanes) else Event.store p (8 * lanes)) ∷ [];
    }

unfoldable pub exec : Instr → Cpu → Cpu
unfolding get put value address emit write_words write_vec low_lanes low_word load_vec store_vec
exec (Instr.mov d s) c = put d (value s c) c
exec (Instr.add d s) c = put d (add64 (get d c) (value s c)) c
exec (Instr.xor d s) c = put d (bit_xor (get d c) (value s c)) c
exec (Instr.and d s) c = put d (bit_and (get d c) (value s c)) c
exec (Instr.or d s) c = put d (bit_or (get d c) (value s c)) c
exec (Instr.clear d) c = put d 0 c
exec (Instr.movl d s) c = put d (get s c % 2 ^ 32) c
exec (Instr.andl d n) c = put d (bit_and (get d c % 2 ^ 32) n) c
exec (Instr.shl d k) c = put d (get d c * 2 ^ k % 2 ^ 64) c
exec (Instr.shr d) c = put d (get d c / 2) c
exec (Instr.inc d) c = put d (add64 (get d c) 1) c
exec (Instr.neg d) c = put d (sub64 0 (get d c)) c
exec (Instr.lea a d) c = put d (address a c) c
exec (Instr.mov_load a d) c = put d (c.mem (address a c)) (emit (Event.load (address a c) 8) c)
exec (Instr.movq_load a d) c = put d (c.mem (address a c)) (emit (Event.load (address a c) 8) c)
exec (Instr.mov_store s a) c = record c {
  mem = write_words (address a c) 1 (λ _. get s c) c.mem;
  trace = c.trace ++ Event.store (address a c) 8 ∷ [];
}
exec (Instr.movq_store s a) c = record c {
  mem = write_words (address a c) 1 (λ _. get s c) c.mem;
  trace = c.trace ++ Event.store (address a c) 8 ∷ [];
}
exec (Instr.movq_to_vec s n) c = record c {
  vec = write_vec n (low_word (value s c) (c.vec n)) c.vec;
}
exec (Instr.movq_load_vec a n) c = record c {
  vec = write_vec n (low_word (c.mem (address a c)) (c.vec n)) c.vec;
  trace = c.trace ++ Event.load (address a c) 8 ∷ [];
}
exec (Instr.movq_from_vec n d) c = put d (c.vec n 0) c
exec (Instr.vbroadcastsd x n) c = record c { vec = write_vec n (low_lanes 4 (λ _. x)) c.vec }
exec (Instr.vmovdqa_load lanes a n) c = load_vec Bool.false lanes a n c
exec (Instr.vmovntdqa lanes a n) c = load_vec Bool.true lanes a n c
exec (Instr.vmovdqa_store lanes n a) c = store_vec Bool.false lanes n a c
exec (Instr.vmovnt_store lanes n a) c = store_vec Bool.true lanes n a c
exec (Instr.clflush a) c = emit (Event.clflush (address a c)) c
exec (Instr.clflushopt a) c = emit (Event.clflushopt (address a c)) c
exec (Instr.clwb a) c = emit (Event.clwb (address a c)) c
exec Instr.mfence c = emit Event.mfence c
exec Instr.sfence c = emit Event.sfence c
exec Instr.lfence c = emit Event.lfence c
exec Instr.nop c = c
-- The counter goes to edx:eax, the processor's number to ecx (its value is not modelled: 0).
exec Instr.rdtscp c = record c {
  rax = c.clock c.ticks % 2 ^ 32;
  rdx = c.clock c.ticks / 2 ^ 32 % 2 ^ 32;
  rcx = 0;
  ticks = c.ticks + 1;
  trace = c.trace ++ Event.rdtscp ∷ [];
}

unfoldable pub run : List Instr → Cpu → Cpu
unfolding exec
run [] c = c
run (i ∷ is) c = run is (exec i c)

-- A straight-line part of a kernel, as a step that cannot run out of fuel.
abbrev pub block : List Instr → Cpu → Option Cpu
block is c = some (run is c)
