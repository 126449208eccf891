-- ===== src/Afterwrite/Init.antt =====
-- The buffers that `init` of OptaneStudy/microbenchmark/read_after_write.cpp allocates on two
-- channels.
use rw_sep.Prelude.{ℕ, ◌+◌, ◌*◌, ◌/◌, ◌≤◌, false, some, List, [], ◌∷◌, ◌≡◌, refl, set, ltb, arith}
use rw_sep.Machine.{add64, sub64}
use rw_sep.Fastalloc.{Side, alloc_size, round_up, open_arena, bump}
use rw_sep.Fastalloc.Blocks.{Block, Apart, IsSystem}
use rw_sep.Channels.{Allocator, open_nvm, open_both, constructed, bump_nvm}
use rw_sep.Channels
use rw_sep.Afterwrite.{Buffers, init_fast_allocator, init}

-- The bytes of a buffer.
abbrev pub buffer : (start bytes : ℕ) → Block
buffer start bytes = record { start = start; bytes = round_up bytes }

-- A side with one arena, at `p`.
abbrev pub one_arena : (slots : List ℕ) → (p : ℕ) → Side
one_arena slots p = record { slots = set slots 0 p; curr = p; left = alloc_size; cnt = 0 + 1 }

-- What `init` makes for buffers of `n` bytes, on regions from number `r` on.
abbrev pub made : (os : ℕ → ℕ) → (slots : List ℕ) → (r n : ℕ) → Buffers
made os slots r n =
    let r1 : ℕ = r + 1 + 2 in
    let p1 : ℕ = os (r + 1 + 1) in
    let p2 : ℕ = os (r1 + 1 + 1) in
    record {
      alloc1 = record {
        channel = 0;
        dram = one_arena slots (os r);
        nvm = (bump n (bump n (one_arena slots p1)).1).1;
        regions = r1 + 1 + 2;
        files = record { channel = 0; numbers = 0 ∷ [] } ∷ [];
      };
      alloc2 = record {
        channel = 1;
        dram = one_arena slots (os r1);
        nvm = (bump n (one_arena slots p2)).1;
        regions = r1 + 1 + 2;
        files = record { channel = 1; numbers = 0 ∷ [] } ∷ [];
      };
      buf_sep1 = p1;
      buf_sep1_ = add64 p1 n;
      buf_sep2 = p2;
    }

pub init-made :
    (os : ℕ → ℕ) (slots : List ℕ) (regions count stride_size : ℕ)
    → round_up (count * stride_size) ≤ alloc_size / 2
    → init os slots regions count stride_size
      ≡ some (made os slots regions (round_up (count * stride_size)))
unfolding init init_fast_allocator Channels.init Channels.alloc open_nvm open_both open_arena
    constructed bump_nvm bump
init-made os slots regions count stride_size fits =
    let n : ℕ = round_up (count * stride_size) in
    let room : ltb alloc_size n ≡ false = ground arith in
    let room' : ltb (sub64 alloc_size n) n ≡ false = ground arith in rw (room, room') refl

-- On a system whose first regions do not overlap and end below 2 ^ 64, `init` succeeds for buffers
-- of at most half of ALLOC_SIZE, no two of its three buffers overlap, and each allocator has mapped
-- one file, that of its own channel.
pub init-Apart :
    (os : ℕ → ℕ) (slots : List ℕ) (regions total count stride_size : ℕ)
    → IsSystem os total
    → regions + 6 ≤ total
    → round_up (count * stride_size) ≤ alloc_size / 2
    → (b : Buffers) × (init os slots regions count stride_size ≡ some b)
      × Apart (buffer b.buf_sep1 (count * stride_size)) (buffer b.buf_sep1_ (count * stride_size))
      × Apart (buffer b.buf_sep1 (count * stride_size)) (buffer b.buf_sep2 (count * stride_size))
      × Apart (buffer b.buf_sep1_ (count * stride_size)) (buffer b.buf_sep2 (count * stride_size))
      × (b.alloc1.files ≡ record { channel = 0; numbers = 0 ∷ [] } ∷ [])
      × (b.alloc2.files ≡ record { channel = 1; numbers = 0 ∷ [] } ∷ [])
init-Apart os slots regions total count stride_size sys supply fits =
    let r1 : ℕ = regions + 1 + 2 in
    let apart =
      sys.spaced (regions + 1 + 1) (r1 + 1 + 1) (omega arith) (omega arith) (omega arith) in
    let bounded = sys.bounded (regions + 1 + 1) (omega arith) in
    (
      made os slots regions (round_up (count * stride_size)),
      init-made os slots regions count stride_size fits,
      ground arith,
      ground arith,
      ground arith,
      refl,
      refl,
    )
