-- ===== src/Examples/Pmemcopy.antt =====
-- The theorems on pmdk/rw_sep.c at concrete inputs.
use rw_sep.Prelude.{
  ℕ, ◌-◌, ◌*◌, ◌≡◌, refl, inl, inr, true, Bool-cases, Option, none, some, List, [], ◌∷◌, replicate,
  leb, ◌==◌, if◌then◌else◌, arith,
}
use rw_sep.Pmemcopy.{
  System, Phase, Exit, n_rw, test_loop, main, test, read_loop, write_loop, mixed_loop,
}
use rw_sep.Pmemcopy.Exhausted.{IsRegular, CopiesNothing, main_copies_nothing}
use rw_sep.Pmemcopy.Failures.{exit_code, after, main-exit_code}
use rw_sep.Pmemcopy.Chunks.{Chunk, Reads, locals, copy_all, last_or, test_copies}

-- A file is the number of bytes that are left, and a read leaves that number in the buffer. The
-- memory holds the last buffer of which something was copied.
abbrev read_some : ℕ → List ℕ → Option (ℕ × List ℕ × ℕ)
read_some left buf =
    if leb left 4096 then some (left, left ∷ [], 0) else some (4096, left ∷ [], left - 4096)

abbrev overwrite : List ℕ → List ℕ → ℕ → List ℕ
overwrite p buf n = if n == 0 then p else buf

abbrev small : (size : ℕ) → System
small size = record {
  File = ℕ;
  Pmem = List ℕ;
  open_rdonly = λ src. some size;
  pmem_map_file = λ dst. some ([], true);
  read = read_some;
  pmem_memcpy_persist = overwrite;
  memcpy = overwrite;
  pmem_msync = λ p n. p;
}

small-IsRegular : (size : ℕ) → IsRegular (small size) (λ f. f)
small-IsRegular size = record {
  reads = λ f buf. elim (Bool-cases (leb f 4096)) [
    | inl few ↦ (f, f ∷ [], 0, rw few refl, λ h. refl, λ h. ground arith, omega arith)
    | inr many ↦ (4096, f ∷ [], f - 4096, rw many refl, λ h. ground arith, λ h. refl, ground arith)
  ];
}

small-CopiesNothing : (size : ℕ) → CopiesNothing (small size)
small-CopiesNothing size = record {
  persist_none = λ p buf. refl;
  memcpy_none = λ p buf. refl;
  msync_keeps = λ p n. refl;
}

abbrev argv : List (List ℕ)
argv = (112 ∷ []) ∷ (115 ∷ []) ∷ (100 ∷ []) ∷ []

main_copies_nothing_example : main (small 5000) argv [] 7 ≡ Exit.exited 0 (some [])
main_copies_nothing_example =
    main_copies_nothing (small 5000) (λ f. f) (small-IsRegular 5000) (small-CopiesNothing 5000)
      (112 ∷ []) (115 ∷ []) (100 ∷ []) [] 7 5000 [] true refl refl (omega arith)

main-exit_code_example :
    exit_code (main (small 5000) argv [] 7)
    ≡ elim (after (small 5000) (test_loop * n_rw) 5000 []) [ none ↦ 1 | some _ ↦ 0 ]
main-exit_code_example =
    main-exit_code (small 5000) (112 ∷ []) (115 ∷ []) (100 ∷ []) [] 7 5000 [] true refl refl

abbrev first : List Chunk
first = (20000 ∷ [], 4096) ∷ (15904 ∷ [], 4096) ∷ []

abbrev second : List Chunk
second = (11808 ∷ [], 4096) ∷ (7712 ∷ [], 4096) ∷ []

test_copies_example :
    test (small 20000) 2 true (locals (small 20000) 20000 ([], 7) [])
    ≡ Phase.going (
        locals (small 20000) 3616 (last_or (last_or ([], 7) first) second) (
          copy_all
            (small 20000)
            true
            (copy_all (small 20000) true [] (replicate 2 (last_or ([], 7) first)))
            second))
test_copies_example =
    test_copies (small 20000) 2 true 20000 11808 3616 ([], 7) [] first second refl refl
      (Reads.and_more _ _ _ _ _ _ _ refl (Reads.and_more _ _ _ _ _ _ _ refl (Reads.no_more _ _)))
      (Reads.and_more _ _ _ _ _ _ _ refl (Reads.and_more _ _ _ _ _ _ _ refl (Reads.no_more _ _)))

-- Two reads before the first copy exhaust a file of 5000 bytes.
test_of_small :
    test (small 5000) 3 true (locals (small 5000) 5000 ([], 7) [])
    ≡ Phase.going (locals (small 5000) 0 (0 ∷ [], 0) [])
unfolding test read_loop write_loop mixed_loop
test_of_small = refl
