-- ===== src/Multithread/Buffers.antt =====
-- The buffers that `init` of OptaneStudy/microbenchmark/rw_sep_multithread.cpp allocates: for each
-- of the eight threads one from each of two allocators, on the channels `port[0]` and `port[1]`.
-- The allocators are those of Channels, and one system serves both.
pub mod Apart
use rw_sep.Prelude.{ℕ, zero, suc, ◌+◌, ◌*◌, ◌^◌, ◌/◌, true, Option, some, List, [], ◌∷◌}
use rw_sep.Prelude.Loops.{◌>>=◌}
use rw_sep.Channels.{Allocator}
use rw_sep.Channels
use rw_sep.Afterwrite.{init_fast_allocator}
use rw_sep.Multithread.{numthread}

-- GLOBAL_WORKSET, and the globals access_size, stride_size and count.
abbrev pub global_workset : ℕ
global_workset = 2 ^ 30

abbrev pub access_size : ℕ
access_size = 64

abbrev pub stride_size : ℕ
stride_size = 64

abbrev pub count : ℕ
count = global_workset / access_size

pub record Buffers : Type 0 where
  pub alloc1 : Allocator
  pub alloc2 : Allocator
  pub buf_sep1 : List ℕ
  pub buf_sep2 : List ℕ

-- The loop of `init`, with `left` threads to go. `regions` is how many regions the system has
-- handed out.
unfoldable pub alloc_loop :
    (ℕ → ℕ) → (size regions left : ℕ) → (alloc1 alloc2 : Allocator) → Option Buffers
alloc_loop os size regions zero alloc1 alloc2 =
    some (record { alloc1 = alloc1; alloc2 = alloc2; buf_sep1 = []; buf_sep2 = [] })
alloc_loop os size regions (suc left) alloc1 alloc2 =
    Channels.alloc os size true (record alloc1 { regions = regions }) >>= λ x.
    Channels.alloc os size true (record alloc2 { regions = x.1.regions }) >>= λ y.
    alloc_loop os size y.1.regions left x.1 y.1 >>= λ rest.
    some (record rest { buf_sep1 = x.0 ∷ rest.buf_sep1; buf_sep2 = y.0 ∷ rest.buf_sep2 })

unfoldable pub init :
    (ℕ → ℕ) → (slots : List ℕ) → (regions port0 port1 count stride_size : ℕ) → Option Buffers
unfolding init_fast_allocator alloc_loop
init os slots regions port0 port1 count stride_size =
    init_fast_allocator os port0 slots slots regions >>= λ alloc1.
    init_fast_allocator os port1 slots slots alloc1.regions >>= λ alloc2.
    alloc_loop os (count * stride_size) alloc2.regions numthread alloc1 alloc2
