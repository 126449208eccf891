-- ===== src/Pmemcopy/Failures.antt =====
-- When pmdk/rw_sep.c exits with a failure of `read`.
use mathlib.Core.Path.{subst}
use rw_sep.Prelude.{
  ℕ, zero, suc, ◌+◌, ◌*◌, ◌≡◌, refl, sym, ap, ◌∙◌, Bool, true, false, Option, none, some, List, [],
  ◌∷◌, arith,
}
use rw_sep.Prelude.Loops.{◌>>=◌}
use rw_sep.Pmemcopy.{
  System, Locals, Phase, going, failed, Exit, exited, n_rw, test_loop, and_then, read_once,
  write_once, read_loop, write_loop, mixed_loop, test, tests, leave, main,
}

abbrev pub exit_code : {sys : System} → Exit sys → ℕ
exit_code (exited code p) = code

module _ (sys : System) where
  -- The file and the buffer after `n` reads in a row, where all succeed.
  unfoldable pub after : ℕ → sys.File → List ℕ → Option (sys.File × List ℕ)
  after zero f buf = some (f, buf)
  after (suc n) f buf = sys.read f buf >>= λ r. after n r.2 r.1

  after-add :
      (m n : ℕ) (f : sys.File) (buf : List ℕ)
      → after (m + n) f buf ≡ (after m f buf >>= λ x. after n x.0 x.1)
  unfolding after
  after-add zero n f buf = ap (λ (k : ℕ). after k f buf) (omega arith)
  after-add (suc m) n f buf =
      let one : suc m + n ≡ suc (m + n) = omega arith in
      rw one (on (λ f' buf'. after-add m n f' buf') (sys.read f buf))
    where
      on :
          ((f' : sys.File) (buf' : List ℕ)
            → after (m + n) f' buf' ≡ (after m f' buf' >>= λ x. after n x.0 x.1))
          → (r : Option (ℕ × List ℕ × sys.File))
          → (r >>= λ r. after (m + n) r.2 r.1)
            ≡ ((r >>= λ r. after m r.2 r.1) >>= λ x. after n x.0 x.1)
      on ih none = refl
      on ih (some r) = ih r.2 r.1

  -- A phase that fails where the reads do, and else goes on with the file and the buffer.
  abbrev Tracks : Option (sys.File × List ℕ) → Phase sys → Type 0
  Tracks none (failed s) = Unit
  Tracks (some x) (going s) = (s.srcfd ≡ x.0) × (s.buf ≡ x.1)
  Tracks _ _ = ⊥

  Tracks-then :
      (o : Option (sys.File × List ℕ)) (r : Phase sys)
      (g : sys.File × List ℕ → Option (sys.File × List ℕ)) (k : Locals sys → Phase sys)
      → Tracks o r
      → ((s : Locals sys) → Tracks (g (s.srcfd, s.buf)) (k s))
      → Tracks (o >>= g) (and_then sys r k)
  Tracks-then none (failed s) g k h rest = tt
  Tracks-then (some x) (going s) g k h rest =
      subst (λ (y : sys.File × List ℕ). Tracks (g y) (k s)) (λ i. (h.0 i, h.1 i)) (rest s)
  Tracks-then none (going s) g k h rest = absurd h
  Tracks-then (some x) (failed s) g k h rest = absurd h

  after-suc :
      (n : ℕ) (f : sys.File) (buf : List ℕ)
      → (after 1 f buf >>= λ x. after n x.0 x.1) ≡ after (suc n) f buf
  after-suc n f buf = sym (after-add 1 n f buf) ∙ ap (λ (k : ℕ). after k f buf) (omega arith)

  read_once-Tracks : (s : Locals sys) → Tracks (after 1 s.srcfd s.buf) (read_once sys s)
  unfolding read_once after
  read_once-Tracks s = on (sys.read s.srcfd s.buf) refl
    where
      on :
          (r : Option (ℕ × List ℕ × sys.File))
          → sys.read s.srcfd s.buf ≡ r
          → Tracks (after 1 s.srcfd s.buf) (read_once sys s)
      on none e = rw (e, read_once) tt
      on (some r) e = rw (e, read_once) (refl, refl)

  read_loop-Tracks : (n : ℕ) (s : Locals sys) → Tracks (after n s.srcfd s.buf) (read_loop sys n s)
  unfolding read_loop
  read_loop-Tracks zero s = unfold after in (refl, refl)
  read_loop-Tracks (suc n) s =
      subst (λ o. Tracks o (and_then sys (read_once sys s) (read_loop sys n)))
        (after-suc n s.srcfd s.buf)
        (Tracks-then (after 1 s.srcfd s.buf) (read_once sys s) (λ x. after n x.0 x.1)
          (read_loop sys n) (read_once-Tracks s) (λ t. read_loop-Tracks n t))

  -- Copies leave the file and the buffer.
  write_loop_keeps :
      (n : ℕ) (is_pmem : Bool) (s : Locals sys)
      → ((write_loop sys n is_pmem s).srcfd ≡ s.srcfd) × ((write_loop sys n is_pmem s).buf ≡ s.buf)
  unfolding write_loop write_once
  write_loop_keeps zero is_pmem s = (refl, refl)
  write_loop_keeps (suc n) true s = write_loop_keeps n true (write_once sys true s)
  write_loop_keeps (suc n) false s = write_loop_keeps n false (write_once sys false s)

  written-Tracks :
      (n : ℕ) (is_pmem : Bool) (s : Locals sys)
      → ((t : Locals sys) → Tracks (after n t.srcfd t.buf) (mixed_loop sys n is_pmem t))
      → Tracks (after n s.srcfd s.buf) (mixed_loop sys n is_pmem (write_once sys is_pmem s))
  unfolding write_once
  written-Tracks n true s h = h (write_once sys true s)
  written-Tracks n false s h = h (write_once sys false s)

  mixed_loop-Tracks :
      (n : ℕ) (is_pmem : Bool) (s : Locals sys)
      → Tracks (after n s.srcfd s.buf) (mixed_loop sys n is_pmem s)
  unfolding mixed_loop
  mixed_loop-Tracks zero is_pmem s = unfold after in (refl, refl)
  mixed_loop-Tracks (suc n) is_pmem s =
      subst
        (λ o. Tracks o (
          and_then sys (read_once sys s)
            (λ t. mixed_loop sys n is_pmem (write_once sys is_pmem t))))
        (after-suc n s.srcfd s.buf)
        (Tracks-then (after 1 s.srcfd s.buf) (read_once sys s) (λ x. after n x.0 x.1)
          (λ t. mixed_loop sys n is_pmem (write_once sys is_pmem t)) (read_once-Tracks s)
          (λ t. written-Tracks n is_pmem t (λ u. mixed_loop-Tracks n is_pmem u)))

  test-Tracks :
      (half : ℕ) (is_pmem : Bool) (s : Locals sys)
      → Tracks (after (half + half) s.srcfd s.buf) (test sys half is_pmem s)
  unfolding test
  test-Tracks half is_pmem s =
      subst
        (λ o. Tracks o (
          and_then sys (read_loop sys half s)
            (λ t. mixed_loop sys half is_pmem (write_loop sys half is_pmem t))))
        (sym (after-add half half s.srcfd s.buf))
        (Tracks-then (after half s.srcfd s.buf) (read_loop sys half s) (λ x. after half x.0 x.1)
          (λ t. mixed_loop sys half is_pmem (write_loop sys half is_pmem t))
          (read_loop-Tracks half s)
          (λ t.
            let k = write_loop_keeps half is_pmem t in
            subst
              (λ (x : sys.File × List ℕ).
                Tracks (after half x.0 x.1)
                  (mixed_loop sys half is_pmem (write_loop sys half is_pmem t)))
              (λ i. (k.0 i, k.1 i))
              (mixed_loop-Tracks half is_pmem (write_loop sys half is_pmem t))))

  tests-Tracks :
      (n half : ℕ) (is_pmem : Bool) (s : Locals sys)
      → Tracks (after (n * (half + half)) s.srcfd s.buf) (tests sys n half is_pmem s)
  unfolding tests
  tests-Tracks zero half is_pmem s =
      let none_done : zero * (half + half) ≡ zero = omega arith in
      rw none_done (unfold after in (refl, refl))
  tests-Tracks (suc n) half is_pmem s =
      subst (λ o. Tracks o (and_then sys (test sys half is_pmem s) (tests sys n half is_pmem)))
        (sym (after-add (half + half) (n * (half + half)) s.srcfd s.buf)
          ∙ ap (λ (k : ℕ). after k s.srcfd s.buf) (grind arith))
        (Tracks-then (after (half + half) s.srcfd s.buf) (test sys half is_pmem s)
          (λ x. after (n * (half + half)) x.0 x.1) (tests sys n half is_pmem)
          (test-Tracks half is_pmem s) (λ t. tests-Tracks n half is_pmem t))

  -- The exit code of a run that tracks reads.
  Tracks-exit_code :
      (o : Option (sys.File × List ℕ)) (r : Phase sys)
      → Tracks o r
      → exit_code (leave sys r) ≡ elim o [ none ↦ 1 | some _ ↦ 0 ]
  unfolding leave
  Tracks-exit_code none (failed s) h = refl
  Tracks-exit_code (some x) (going s) h = refl
  Tracks-exit_code none (going s) h = absurd h
  Tracks-exit_code (some x) (failed s) h = absurd h

  -- Once the file is open and the memory mapped, `main` exits with 1 when one of test_loop * N_RW
  -- reads in a row fails, and else with 0.
  pub main-exit_code :
      (program src dst buf : List ℕ) (cc : ℕ) (f : sys.File) (p : sys.Pmem) (is_pmem : Bool)
      → sys.open_rdonly src ≡ some f
      → sys.pmem_map_file dst ≡ some (p, is_pmem)
      → exit_code (main sys (program ∷ src ∷ dst ∷ []) buf cc)
        ≡ elim (after (test_loop * n_rw) f buf) [ none ↦ 1 | some _ ↦ 0 ]
  unfolding main
  main-exit_code program src dst buf cc f p is_pmem opens maps =
      let s : Locals sys = record { srcfd = f; buf = buf; cc = cc; pmemaddr = p } in
      rw (opens, main, maps)
        (Tracks-exit_code (after (test_loop * n_rw) f buf) (tests sys 300 50000 is_pmem s)
          (tests-Tracks 300 50000 is_pmem s))
