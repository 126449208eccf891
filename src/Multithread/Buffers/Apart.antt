-- ===== src/Multithread/Buffers/Apart.antt =====
-- The buffers of rw_sep_multithread.cpp (OptaneStudy/microbenchmark) lie apart, on two arenas of
-- each channel.
use mathlib.Core.Path.{subst}
use rw_sep.Prelude.{
  ℕ, ◌+◌, ◌*◌, ◌^◌, ◌≤◌, ◌<◌, ◌≡◌, ◌≢◌, ◌⊎◌, refl, sym, ap, ◌∙◌, false, some, List, [], ◌∷◌, ◌++◌,
  All, All-append, set, leb, map, arith,
}
use rw_sep.Prelude.Loops.{◌>>=◌}
use rw_sep.Machine.{add64}
use rw_sep.Fastalloc.{Side, alloc_size, round_up, open_arena, bump}
use rw_sep.Fastalloc.Blocks.{Block, Apart, IsSystem}
use rw_sep.Fastalloc.Disjoint.{Separate}
use rw_sep.Channels.{Allocator, File, open_nvm, open_both, constructed, bump_nvm}
use rw_sep.Channels
use rw_sep.Afterwrite.{init_fast_allocator}
use rw_sep.Multithread.{numthread}
use rw_sep.Multithread.Buffers.{Buffers, global_workset, count, stride_size, alloc_loop, init}

abbrev pub buffer : (start : ℕ) → Block
buffer start = record { start = start; bytes = global_workset }

-- Where the four buffers of an arena begin.
abbrev pub quarters : ℕ → List ℕ
quarters p =
    p
    ∷ add64 p global_workset
    ∷ add64 (add64 p global_workset) global_workset
    ∷ add64 (add64 (add64 p global_workset) global_workset) global_workset
    ∷ []

abbrev arena_side : (slots : List ℕ) → ℕ → Side
arena_side slots p = record { slots = set slots 0 p; curr = p; left = alloc_size; cnt = 1 }

-- The allocator that `init_fast_allocator` makes on a channel.
abbrev started_on : (os : ℕ → ℕ) (slots : List ℕ) (regions port : ℕ) → Allocator
started_on os slots regions port = record {
  channel = port;
  dram = arena_side slots (os regions);
  nvm = arena_side slots (os (regions + 1 + 1));
  regions = regions + 1 + 2;
  files = record { channel = port; numbers = 0 ∷ [] } ∷ [];
}

init_fast_allocator_starts :
    (os : ℕ → ℕ) (slots : List ℕ) (regions port : ℕ)
    → port < 4
    → init_fast_allocator os port slots slots regions ≡ some (started_on os slots regions port)
unfolding init_fast_allocator Channels.init open_both open_nvm open_arena constructed
init_fast_allocator_starts os slots regions port small =
    let good : leb 4 port ≡ false = ground arith in rw (good, init_fast_allocator) refl

-- Eight buffers of each side fill two arenas.
alloc_loop_fills :
    (os : ℕ → ℕ) (slots : List ℕ) (regions r port0 port1 : ℕ)
    → (b : Buffers) × (alloc_loop os
          (count * stride_size)
          r
          numthread
          (started_on os slots regions port0)
          (started_on os slots (regions + 1 + 2) port1)
        ≡ some b)
      × (b.buf_sep1 ≡ quarters (os (regions + 1 + 1)) ++ quarters (os (r + 1)))
      × (b.buf_sep2 ≡ quarters (os (regions + 1 + 2 + 1 + 1)) ++ quarters (os (r + 2 + 1)))
      × (b.alloc1.files
          ≡ record { channel = port0; numbers = 0 ∷ [] }
            ∷ record { channel = port0; numbers = 1 ∷ [] }
            ∷ [])
      × (b.alloc2.files
          ≡ record { channel = port1; numbers = 0 ∷ [] }
            ∷ record { channel = port1; numbers = 1 ∷ [] }
            ∷ [])
unfolding alloc_loop Channels.alloc open_nvm open_arena bump_nvm bump round_up
alloc_loop_fills os slots regions r port0 port1 = (_, refl, refl, refl, refl, refl)

abbrev blocks : ℕ → List Block
blocks p = map buffer (quarters p)

quarters-Separate : (p : ℕ) → p + alloc_size < 2 ^ 64 → Separate (blocks p)
quarters-Separate p h = (
  (ground arith, (ground arith, (ground arith, tt))),
  ((ground arith, (ground arith, tt)), ((ground arith, tt), (tt, tt))),
)

-- Blocks of one list against those of another.
abbrev AllApart : List Block → List Block → Type 0
AllApart xs ys = All (λ x. All (Apart x) ys) xs

All-buffers :
    (P : Block → Type 0) (p : ℕ)
    → p + alloc_size < 2 ^ 64
    → ((a : ℕ) → p ≤ a → a + global_workset ≤ p + alloc_size → P (buffer a))
    → All P (blocks p)
All-buffers P p bounded h = (
  h p (omega arith) (omega arith),
  (
    h (add64 p global_workset) (omega arith) (omega arith),
    (
      h (add64 (add64 p global_workset) global_workset) (omega arith) (omega arith),
      (
        h (add64 (add64 (add64 p global_workset) global_workset) global_workset) (omega arith)
            (omega arith),
        tt,
      ),
    ),
  ),
)

quarters-AllApart :
    (p q : ℕ)
    → p + alloc_size < 2 ^ 64
    → q + alloc_size < 2 ^ 64
    → (p + alloc_size ≤ q) ⊎ (q + alloc_size ≤ p)
    → AllApart (blocks p) (blocks q)
quarters-AllApart p q hp hq far =
    All-buffers (λ x. All (Apart x) (blocks q)) p hp
      λ a lo hi. All-buffers (Apart (buffer a)) q hq λ b lo' hi'. ground arith

Separate-append :
    (xs ys : List Block) → Separate xs → Separate ys → AllApart xs ys → Separate (xs ++ ys)
Separate-append [] ys sx sy h = sy
Separate-append (x ∷ xs) ys sx sy h =
    (All-append (Apart x) xs ys sx.0 h.0, Separate-append xs ys sx.1 sy h.1)

All-both : (xs ys zs : List Block) → AllApart xs ys → AllApart xs zs → AllApart xs (ys ++ zs)
All-both [] ys zs h k = tt
All-both (x ∷ xs) ys zs h k = (All-append (Apart x) ys zs h.0 k.0, All-both xs ys zs h.1 k.1)

module _ (os : ℕ → ℕ) (total : ℕ) (sys : IsSystem os total) where
  region-Separate : (i : ℕ) → i < total → Separate (blocks (os i))
  region-Separate i h = quarters-Separate (os i) (sys.bounded i h)

  region-AllApart :
      (i j : ℕ) → i < total → j < total → i ≢ j → AllApart (blocks (os i)) (blocks (os j))
  region-AllApart i j hi hj ne =
      quarters-AllApart (os i) (os j) (sys.bounded i hi) (sys.bounded j hj)
        (sys.spaced i j hi hj ne)

  four-Separate :
      (i j k l : ℕ)
      → i < j
      → j < k
      → k < l
      → l < total
      → Separate ((blocks (os i) ++ blocks (os k)) ++ (blocks (os j) ++ blocks (os l)))
  four-Separate i j k l ij jk kl h =
      let at =
        λ (x y : ℕ) (hx : x < total) (hy : y < total) (ne : x ≢ y). region-AllApart x y hx hy ne in
      Separate-append (blocks (os i) ++ blocks (os k)) (blocks (os j) ++ blocks (os l))
        (Separate-append (blocks (os i)) (blocks (os k)) (region-Separate i (omega arith))
          (region-Separate k (omega arith)) (at i k (omega arith) (omega arith) (omega arith)))
        (Separate-append (blocks (os j)) (blocks (os l)) (region-Separate j (omega arith))
          (region-Separate l h) (at j l (omega arith) h (omega arith)))
        (All-append (λ x. All (Apart x) (blocks (os j) ++ blocks (os l))) (blocks (os i))
          (blocks (os k))
          (All-both (blocks (os i)) (blocks (os j)) (blocks (os l))
            (at i j (omega arith) (omega arith) (omega arith))
            (at i l (omega arith) h (omega arith)))
          (All-both (blocks (os k)) (blocks (os j)) (blocks (os l))
            (at k j (omega arith) (omega arith) (omega arith))
            (at k l (omega arith) h (omega arith))))

  -- On a system whose first regions do not overlap and end below 2 ^ 64, for channels from 0 to 3
  -- and with the program's count and stride_size: `init` succeeds. No two of the sixteen buffers of
  -- 2 ^ 30 bytes overlap, and each allocator has mapped the first two files of its channel.
  pub init-Separate :
      (slots : List ℕ) (regions port0 port1 : ℕ)
      → port0 < 4
      → port1 < 4
      → regions + 10 ≤ total
      → (b : Buffers) × (init os slots regions port0 port1 count stride_size ≡ some b)
        × Separate (map buffer (b.buf_sep1 ++ b.buf_sep2))
        × (b.alloc1.files
            ≡ record { channel = port0; numbers = 0 ∷ [] }
              ∷ record { channel = port0; numbers = 1 ∷ [] }
              ∷ [])
        × (b.alloc2.files
            ≡ record { channel = port1; numbers = 0 ∷ [] }
              ∷ record { channel = port1; numbers = 1 ∷ [] }
              ∷ [])
  unfolding init
  init-Separate slots regions port0 port1 small small' supply =
      let r : ℕ = regions + 1 + 2 + 1 + 2 in
      let filled = alloc_loop_fills os slots regions r port0 port1 in
      (
        filled.0,
        ap
              (λ m. m >>= λ alloc1.
                init_fast_allocator os port1 slots slots alloc1.regions >>= λ alloc2.
                alloc_loop os (count * stride_size) alloc2.regions numthread alloc1 alloc2)
              (init_fast_allocator_starts os slots regions port0 small)
            ∙ ap
                (λ m. m >>= λ alloc2.
                  alloc_loop os (count * stride_size) alloc2.regions numthread
                    (started_on os slots regions port0) alloc2)
                (init_fast_allocator_starts os slots (regions + 1 + 2) port1 small')
            ∙ filled.1,
        subst (λ (bs : List ℕ). Separate (map buffer (bs ++ filled.0.buf_sep2))) (sym filled.2)
            (subst
              (λ (bs : List ℕ).
                Separate
                  (map buffer ((quarters (os (regions + 1 + 1)) ++ quarters (os (r + 1))) ++ bs)))
              (sym filled.3)
              (four-Separate (regions + 1 + 1) (regions + 1 + 2 + 1 + 1) (r + 1) (r + 2 + 1)
                (omega arith) (omega arith) (omega arith) (omega arith))),
        filled.4,
        filled.5,
      )
