-- ===== src/Pmemcopy.antt =====
-- The program of pmdk/rw_sep.c, which reads a file and copies what it read to persistent memory,
-- in a phase of reads and a phase of copies, and then one by one. The system calls and libpmem are
-- a parameter. The clock, the sums of times and the speed-up that is printed are left out.
pub mod Exhausted
pub mod Failures
pub mod Chunks
use rw_sep.Prelude.{
  ℕ, zero, suc, ◌/◌, Bool, true, false, Option, none, some, List, [], ◌∷◌, if◌then◌else◌,
}

-- `File` is an open file with its position, `Pmem` the memory of the mapped file. `read f buf`
-- gives what read(2) returns for a buffer of BUF_LEN bytes, the buffer and the file then, or `none`
-- where it returns -1. `pmem_map_file` tells too whether the memory is persistent.
pub record System : Type 1 where
  pub File : Type 0
  pub Pmem : Type 0
  pub open_rdonly : List ℕ → Option File
  pub pmem_map_file : List ℕ → Option (Pmem × Bool)
  pub read : File → List ℕ → Option (ℕ × List ℕ × File)
  pub pmem_memcpy_persist : Pmem → List ℕ → ℕ → Pmem
  pub memcpy : Pmem → List ℕ → ℕ → Pmem
  pub pmem_msync : Pmem → ℕ → Pmem

-- BUF_LEN, and the globals N_RW and test_loop.
abbrev pub buf_len : ℕ
buf_len = 4096

abbrev pub n_rw : ℕ
n_rw = 100000

abbrev pub test_loop : ℕ
test_loop = 300

module _ (sys : System) where
  open sys use {
    File, Pmem, open_rdonly, pmem_map_file, read, pmem_memcpy_persist, memcpy, pmem_msync,
  }

  -- The locals of `main`.
  pub record Locals : Type 0 where
    pub srcfd : File
    pub buf : List ℕ
    pub cc : ℕ
    pub pmemaddr : Pmem

  -- Going on, or at the failure of `read`.
  pub data Phase : Type 0 where
    going failed : Locals → Phase

  abbrev pub and_then : Phase → (Locals → Phase) → Phase
  and_then (Phase.going s) f = f s
  and_then (Phase.failed s) f = Phase.failed s

  -- `(cc = read(srcfd, buf, BUF_LEN)) < 0`.
  unfoldable pub read_once : Locals → Phase
  read_once s = elim (read s.srcfd s.buf) [
    | none ↦ Phase.failed s
    | some (cc, buf, f) ↦ Phase.going (record s { srcfd = f; buf = buf; cc = cc })
  ]

  -- `if (is_pmem) { … } else { … }`.
  unfoldable pub write_once : (is_pmem : Bool) → Locals → Locals
  write_once true s = record s { pmemaddr = pmem_memcpy_persist s.pmemaddr s.buf s.cc }
  write_once false s = record s { pmemaddr = pmem_msync (memcpy s.pmemaddr s.buf s.cc) s.cc }

  unfoldable pub read_loop : ℕ → Locals → Phase
  unfolding read_once
  read_loop zero s = Phase.going s
  read_loop (suc left) s = and_then (read_once s) (read_loop left)

  unfoldable pub write_loop : ℕ → (is_pmem : Bool) → Locals → Locals
  unfolding write_once
  write_loop zero is_pmem s = s
  write_loop (suc left) is_pmem s = write_loop left is_pmem (write_once is_pmem s)

  unfoldable pub mixed_loop : ℕ → (is_pmem : Bool) → Locals → Phase
  unfolding read_once write_once
  mixed_loop zero is_pmem s = Phase.going s
  mixed_loop (suc left) is_pmem s =
      and_then (read_once s) (λ t. mixed_loop left is_pmem (write_once is_pmem t))

  -- One round of the outer loop, where `half` is N_RW/2.
  unfoldable pub test : (half : ℕ) → (is_pmem : Bool) → Locals → Phase
  test half is_pmem s =
      and_then (read_loop half s) (λ t. mixed_loop half is_pmem (write_loop half is_pmem t))

  unfoldable pub tests : ℕ → (half : ℕ) → (is_pmem : Bool) → Locals → Phase
  tests zero half is_pmem s = Phase.going s
  tests (suc left) half is_pmem s = and_then (test half is_pmem s) (tests left half is_pmem)

  -- The exit code, and the memory where it was mapped, as it is when it is unmapped.
  pub data Exit : Type 0 where
    exited : (code : ℕ) → Option Pmem → Exit

  unfoldable pub leave : Phase → Exit
  leave (Phase.going s) = Exit.exited 0 (some s.pmemaddr)
  leave (Phase.failed s) = Exit.exited 1 (some s.pmemaddr)

  -- `buf` and `cc` are what the uninitialised locals hold.
  unfoldable pub main : (argv : List (List ℕ)) → (buf : List ℕ) → (cc : ℕ) → Exit
  unfolding leave
  main (program ∷ src ∷ dst ∷ []) buf cc = elim (open_rdonly src) [
    | none ↦ Exit.exited 1 none
    | some f ↦ elim (pmem_map_file dst) [
      | none ↦ Exit.exited 1 none
      | some (p, is_pmem) ↦ leave (
          tests test_loop (n_rw / 2) is_pmem
            (record { srcfd = f; buf = buf; cc = cc; pmemaddr = p }))
    ]
  ]
  main argv buf cc = Exit.exited 1 none
