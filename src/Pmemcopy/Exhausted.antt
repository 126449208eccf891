-- ===== src/Pmemcopy/Exhausted.antt =====
-- What pmdk/rw_sep.c copies from a file that its first reads exhaust: it never goes back to the
-- beginning of the file.
use rw_sep.Prelude.{
  ℕ, zero, suc, ◌+◌, ◌-◌, ◌*◌, ◌/◌, ◌≤◌, ◌<◌, ◌≡◌, refl, ap, ◌∙◌, Bool, true, false, some, List, [],
  ◌∷◌, arith,
}
use rw_sep.Pmemcopy.{
  System, Locals, Phase, Exit, buf_len, n_rw, and_then, read_once, write_once, read_loop,
  write_loop, mixed_loop, test, tests, leave, main,
}

-- A regular file, of which `left f` bytes are to be read: each read succeeds, and takes what is
-- left, BUF_LEN bytes at most.
pub record IsRegular (sys : System) (left : sys.File → ℕ) : Type 0 where
  pub reads :
      (f : sys.File) (buf : List ℕ)
      → (cc : ℕ) × (buf' : List ℕ) × (f' : sys.File) × (sys.read f buf ≡ some (cc, buf', f'))
        × (left f ≤ buf_len → cc ≡ left f)
        × (buf_len < left f → cc ≡ buf_len)
        × (left f' + cc ≡ left f)

-- The copies of no bytes change nothing, and `pmem_msync` does not change what the memory holds.
pub record CopiesNothing (sys : System) : Type 0 where
  pub persist_none : (p : sys.Pmem) (buf : List ℕ) → sys.pmem_memcpy_persist p buf 0 ≡ p
  pub memcpy_none : (p : sys.Pmem) (buf : List ℕ) → sys.memcpy p buf 0 ≡ p
  pub msync_keeps : (p : sys.Pmem) (len : ℕ) → sys.pmem_msync p len ≡ p

module _ (sys : System) (left : sys.File → ℕ) (file : IsRegular sys left)
    (none_copied : CopiesNothing sys) where
  -- A phase that goes on at the end of the file, with the memory as it was.
  record Drained (p : sys.Pmem) (r : Phase sys) : Type 0 where
    s' : Locals sys
    goes_on : r ≡ Phase.going s'
    at_end : left s'.srcfd ≡ 0
    nothing : s'.cc ≡ 0
    kept : s'.pmemaddr ≡ p

  -- One read, as the file has it.
  record OneRead (s : Locals sys) : Type 0 where
    s' : Locals sys
    goes_on : read_once sys s ≡ Phase.going s'
    all_left : left s.srcfd ≤ buf_len → s'.cc ≡ left s.srcfd
    full : buf_len < left s.srcfd → s'.cc ≡ buf_len
    fewer : left s'.srcfd + s'.cc ≡ left s.srcfd
    kept : s'.pmemaddr ≡ s.pmemaddr

  read_once-OneRead : (s : Locals sys) → OneRead s
  unfolding read_once
  read_once-OneRead s =
      let (cc, buf, f, e, all_left, full, fewer) = file.reads s.srcfd s.buf in
      record {
        s' = record s { srcfd = f; buf = buf; cc = cc };
        goes_on = rw (e, read_once) refl;
        all_left = all_left;
        full = full;
        fewer = fewer;
        kept = refl;
      }

  read_loop-Drained :
      (n : ℕ) (s : Locals sys)
      → left s.srcfd ≤ buf_len * n
      → Drained s.pmemaddr (read_loop sys (suc n) s)
  unfolding read_loop
  read_loop-Drained zero s h =
      let r = read_once-OneRead s in
      let none_left : left s.srcfd ≡ 0 = omega arith in
      record {
        s' = r.s';
        goes_on = rw (r.goes_on, and_then) refl;
        at_end = omega (arith, r.fewer);
        nothing = r.all_left (omega arith) ∙ none_left;
        kept = r.kept;
      }
  read_loop-Drained (suc n) s h =
      let r = read_once-OneRead s in
      let rest = read_loop-Drained n r.s' (ground (arith, r.fewer, r.all_left, r.full)) in
      record {
        s' = rest.s';
        goes_on = rw (r.goes_on, and_then) rest.goes_on;
        at_end = rest.at_end;
        nothing = rest.nothing;
        kept = rest.kept ∙ r.kept;
      }

  write_once_none : (is_pmem : Bool) (s : Locals sys) → s.cc ≡ 0 → write_once sys is_pmem s ≡ s
  unfolding write_once
  write_once_none true s h =
      ap (λ (p : sys.Pmem). record s { pmemaddr = p })
        (ap (sys.pmem_memcpy_persist s.pmemaddr s.buf) h
          ∙ none_copied.persist_none s.pmemaddr s.buf)
  write_once_none false s h =
      ap (λ (p : sys.Pmem). record s { pmemaddr = p })
        (none_copied.msync_keeps (sys.memcpy s.pmemaddr s.buf s.cc) s.cc
          ∙ ap (sys.memcpy s.pmemaddr s.buf) h
          ∙ none_copied.memcpy_none s.pmemaddr s.buf)

  write_loop_none :
      (n : ℕ) (is_pmem : Bool) (s : Locals sys) → s.cc ≡ 0 → write_loop sys n is_pmem s ≡ s
  unfolding write_loop
  write_loop_none zero is_pmem s h = refl
  write_loop_none (suc n) is_pmem s h =
      ap (write_loop sys n is_pmem) (write_once_none is_pmem s h) ∙ write_loop_none n is_pmem s h

  mixed_loop-Drained :
      (n : ℕ) (is_pmem : Bool) (s : Locals sys)
      → left s.srcfd ≡ 0
      → s.cc ≡ 0
      → Drained s.pmemaddr (mixed_loop sys n is_pmem s)
  unfolding mixed_loop
  mixed_loop-Drained zero is_pmem s h e = record {
    s' = s;
    goes_on = refl;
    at_end = h;
    nothing = e;
    kept = refl;
  }
  mixed_loop-Drained (suc n) is_pmem s h e =
      let r = read_once-OneRead s in
      let nothing : r.s'.cc ≡ 0 = r.all_left (omega arith) ∙ h in
      let rest = mixed_loop-Drained n is_pmem r.s' (omega (arith, r.fewer)) nothing in
      record {
        s' = rest.s';
        goes_on = rw (r.goes_on, and_then, write_once_none is_pmem r.s' nothing) rest.goes_on;
        at_end = rest.at_end;
        nothing = rest.nothing;
        kept = rest.kept ∙ r.kept;
      }

  test-Drained :
      (n : ℕ) (is_pmem : Bool) (s : Locals sys)
      → left s.srcfd ≤ buf_len * n
      → Drained s.pmemaddr (test sys (suc n) is_pmem s)
  unfolding test
  test-Drained n is_pmem s h =
      let r = read_loop-Drained n s h in
      let m = mixed_loop-Drained (suc n) is_pmem r.s' r.at_end r.nothing in
      record {
        s' = m.s';
        goes_on =
            rw (r.goes_on, and_then, write_loop_none (suc n) is_pmem r.s' r.nothing) m.goes_on;
        at_end = m.at_end;
        nothing = m.nothing;
        kept = m.kept ∙ r.kept;
      }

  tests-Drained :
      (k n : ℕ) (is_pmem : Bool) (s : Locals sys)
      → left s.srcfd ≤ buf_len * n
      → Drained s.pmemaddr (tests sys (suc k) (suc n) is_pmem s)
  unfolding tests
  tests-Drained zero n is_pmem s h =
      let r = test-Drained n is_pmem s h in
      record {
        s' = r.s';
        goes_on = rw (r.goes_on, and_then) refl;
        at_end = r.at_end;
        nothing = r.nothing;
        kept = r.kept;
      }
  tests-Drained (suc k) n is_pmem s h =
      let r = test-Drained n is_pmem s h in
      let rest = tests-Drained k n is_pmem r.s' (omega (arith, r.at_end)) in
      record {
        s' = rest.s';
        goes_on = rw (r.goes_on, and_then) rest.goes_on;
        at_end = rest.at_end;
        nothing = rest.nothing;
        kept = rest.kept ∙ r.kept;
      }

  -- With a regular file of at most 4096 * (N_RW / 2 - 1) bytes, and a library whose copies of no
  -- bytes change nothing: `main` exits with 0, and the memory holds what it held when it was
  -- mapped. The benchmark copies nothing of the file.
  pub main_copies_nothing :
      (program src dst buf : List ℕ) (cc : ℕ) (f : sys.File) (p : sys.Pmem) (is_pmem : Bool)
      → sys.open_rdonly src ≡ some f
      → sys.pmem_map_file dst ≡ some (p, is_pmem)
      → left f ≤ buf_len * (n_rw / 2 - 1)
      → main sys (program ∷ src ∷ dst ∷ []) buf cc ≡ Exit.exited 0 (some p)
  unfolding main leave
  main_copies_nothing program src dst buf cc f p is_pmem opens maps short =
      let d =
        tests-Drained 299 49999 is_pmem (record { srcfd = f; buf = buf; cc = cc; pmemaddr = p })
          short in
      rw (opens, main, maps, d.goes_on, d.kept) refl
