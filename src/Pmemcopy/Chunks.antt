-- ===== src/Pmemcopy/Chunks.antt =====
-- What the two phases of pmdk/rw_sep.c copy, as long as all reads succeed.
use rw_sep.Prelude.{
  ℕ, zero, suc, ◌≡◌, refl, sym, ap, ◌∙◌, Bool, true, false, some, List, [], ◌∷◌, length, replicate,
}
use rw_sep.Pmemcopy.{
  System, Locals, Phase, and_then, read_once, write_once, read_loop, write_loop, mixed_loop, test,
}

-- What a read leaves: the buffer, and how much of it is new.
abbrev pub Chunk : Type 0
Chunk = List ℕ × ℕ

abbrev pub last_or : Chunk → List Chunk → Chunk
last_or c [] = c
last_or c (d ∷ cs) = last_or d cs

module _ (sys : System) where
  -- Successful reads in a row from a file and a buffer, and the file in the end.
  pub data Reads : sys.File → List ℕ → List Chunk → sys.File → Type 0 where
    no_more : (f : sys.File) (buf : List ℕ) → Reads f buf [] f
    and_more :
        (f : sys.File) (buf : List ℕ) (cc : ℕ) (buf' : List ℕ) (f' : sys.File) (cs : List Chunk)
        (f'' : sys.File)
        → sys.read f buf ≡ some (cc, buf', f')
        → Reads f' buf' cs f''
        → Reads f buf ((buf', cc) ∷ cs) f''

  abbrev pub copy : (is_pmem : Bool) → sys.Pmem → Chunk → sys.Pmem
  copy true p c = sys.pmem_memcpy_persist p c.0 c.1
  copy false p c = sys.pmem_msync (sys.memcpy p c.0 c.1) c.1

  -- The chunks copied in turn.
  abbrev pub copy_all : (is_pmem : Bool) → sys.Pmem → List Chunk → sys.Pmem
  copy_all is_pmem p [] = p
  copy_all is_pmem p (c ∷ cs) = copy_all is_pmem (copy is_pmem p c) cs

  abbrev pub locals : sys.File → Chunk → sys.Pmem → Locals sys
  locals f c p = record { srcfd = f; buf = c.0; cc = c.1; pmemaddr = p }

  read_once_chunk :
      (f : sys.File) (c : Chunk) (p : sys.Pmem) (cc : ℕ) (buf' : List ℕ) (f' : sys.File)
      → sys.read f c.0 ≡ some (cc, buf', f')
      → read_once sys (locals f c p) ≡ Phase.going (locals f' (buf', cc) p)
  unfolding read_once
  read_once_chunk f c p cc buf' f' e = rw (e, read_once) refl

  read_loop_chunks :
      (f : sys.File) (buf : List ℕ) (cs : List Chunk) (f' : sys.File)
      → Reads f buf cs f'
      → (cc : ℕ) (p : sys.Pmem)
      → read_loop sys (length cs) (locals f (buf, cc) p)
        ≡ Phase.going (locals f' (last_or (buf, cc) cs) p)
  unfolding read_loop
  read_loop_chunks f buf cs f' (no_more _ _) cc p = refl
  read_loop_chunks f buf cs f'' (and_more _ _ cc' buf' f' ds _ e more) cc p =
      ap (λ r. and_then sys r (read_loop sys (length ds)))
        (read_once_chunk f (buf, cc) p cc' buf' f' e)
      ∙ read_loop_chunks f' buf' ds f'' more cc' p

  write_once-copy :
      (is_pmem : Bool) (f : sys.File) (c : Chunk) (p : sys.Pmem)
      → write_once sys is_pmem (locals f c p) ≡ locals f c (copy is_pmem p c)
  unfolding write_once
  write_once-copy true f c p = refl
  write_once-copy false f c p = refl

  write_loop-copy_all :
      (n : ℕ) (is_pmem : Bool) (f : sys.File) (c : Chunk) (p : sys.Pmem)
      → write_loop sys n is_pmem (locals f c p) ≡ locals f c (copy_all is_pmem p (replicate n c))
  unfolding write_loop
  write_loop-copy_all zero is_pmem f c p = refl
  write_loop-copy_all (suc n) is_pmem f c p =
      ap (write_loop sys n is_pmem) (write_once-copy is_pmem f c p)
      ∙ write_loop-copy_all n is_pmem f c (copy is_pmem p c)

  mixed_loop_chunks :
      (is_pmem : Bool) (f : sys.File) (buf : List ℕ) (cs : List Chunk) (f' : sys.File)
      → Reads f buf cs f'
      → (cc : ℕ) (p : sys.Pmem)
      → mixed_loop sys (length cs) is_pmem (locals f (buf, cc) p)
        ≡ Phase.going (locals f' (last_or (buf, cc) cs) (copy_all is_pmem p cs))
  unfolding mixed_loop
  mixed_loop_chunks is_pmem f buf cs f' (no_more _ _) cc p = refl
  mixed_loop_chunks is_pmem f buf cs f'' (and_more _ _ cc' buf' f' ds _ e more) cc p =
      ap (λ r. and_then sys r (λ t. mixed_loop sys (length ds) is_pmem (write_once sys is_pmem t)))
        (read_once_chunk f (buf, cc) p cc' buf' f' e)
      ∙ ap (mixed_loop sys (length ds) is_pmem) (write_once-copy is_pmem f' (buf', cc') p)
      ∙ mixed_loop_chunks is_pmem f' buf' ds f'' more cc' (copy is_pmem p (buf', cc'))

  -- A round of the outer loop whose reads succeed, N_RW / 2 in each phase: the first phase copies
  -- the last of its chunks N_RW / 2 times and no other, the second one copies each of its own.
  pub test_copies :
      (half : ℕ) (is_pmem : Bool) (f f' f'' : sys.File) (c : Chunk) (p : sys.Pmem)
      (first second : List Chunk)
      → length first ≡ half
      → length second ≡ half
      → Reads f c.0 first f'
      → Reads f' (last_or c first).0 second f''
      → test sys half is_pmem (locals f c p)
        ≡ Phase.going (
            locals f''
              (last_or (last_or c first) second)
              (copy_all is_pmem (copy_all is_pmem p (replicate half (last_or c first))) second))
  unfolding test
  test_copies half is_pmem f f' f'' c p first second e e' reads reads' =
      ap (λ r. and_then sys r (λ t. mixed_loop sys half is_pmem (write_loop sys half is_pmem t)))
        (ap (λ (n : ℕ). read_loop sys n (locals f c p)) (sym e)
          ∙ read_loop_chunks f c.0 first f' reads c.1 p)
      ∙ ap (mixed_loop sys half is_pmem) (write_loop-copy_all half is_pmem f' (last_or c first) p)
      ∙ ap
          (λ (n : ℕ).
            mixed_loop sys n is_pmem
              (locals f' (last_or c first) (copy_all is_pmem p (replicate half (last_or c first)))))
          (sym e')
      ∙ mixed_loop_chunks is_pmem f' (last_or c first).0 second f'' reads' (last_or c first).1
          (copy_all is_pmem p (replicate half (last_or c first)))
