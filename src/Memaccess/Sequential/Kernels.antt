-- ===== src/Memaccess/Sequential/Kernels.antt =====
-- What `seq_load`, `seq_store`, `seq_clwb` and `seq_nt` of OptaneStudy/src/memaccess.c access, and
-- in which order; and what is durable behind a fence that follows them.
use rw_sep.Prelude.{
  ℕ, ◌+◌, ◌-◌, ◌*◌, ◌/◌, ◌^◌, ◌≤◌, ◌<◌, some, List, [], ◌∷◌, ◌++◌, ◌≡◌, refl, ap, ◌∙◌, append_assoc,
  concat_upto, arith,
}
use rw_sep.Machine.{Event, Instr, Cpu, add64, run}
use rw_sep.Machine.Persist.{Lines, effects, NoDirty, Durable}
use rw_sep.Memaccess.Stride.{load_zmm0}
use rw_sep.Memaccess.Advance.{plain_address, load_line, stream_line, store_flush_line}
use rw_sep.Memaccess.Rounds.{Traces, pieces}
use rw_sep.Machine.Faults.{IsAligned}
use rw_sep.Memaccess.Durable.{
  Tidy-concat_upto, store_flush_line-Tidy, stream_line-Tidy, mfence-Durable, Settles-append,
  settled,
}
use rw_sep.Memaccess.Sequential.{seq_piece, seq_load, seq_store, seq_clwb, seq_nt}
use rw_sep.Memaccess.Sequential.Sweeps.{Touched, chunk, chunks, seq_loop-Traces}

-- The events of a kernel: chunk after chunk of `size` bytes, upwards from start_addr.
abbrev pub sequence : (ℕ → List Event) → (start_addr end_addr size : ℕ) → List Event
sequence evs start_addr end_addr size =
    concat_upto (λ i. chunk evs size (start_addr + size * i)) (chunks start_addr end_addr size)

load-Touched : (c : Cpu) → Touched load_line c (run (Instr.vmovntdqa 8 seq_piece 0 ∷ []) c)
unfolding run
load-Touched c = record {
  r8 = refl;
  r9 = refl;
  trace = ap (λ a. c.trace ++ load_line a) (plain_address c.r9 c.r8);
}

stream-Touched : (c : Cpu) → Touched stream_line c (run (Instr.vmovnt_store 8 0 seq_piece ∷ []) c)
unfolding run
stream-Touched c = record {
  r8 = refl;
  r9 = refl;
  trace = ap (λ a. c.trace ++ stream_line a) (plain_address c.r9 c.r8);
}

store_flush-Touched :
    (c : Cpu)
    → Touched store_flush_line c
        (run (Instr.vmovdqa_store 8 0 seq_piece ∷ Instr.clwb seq_piece ∷ []) c)
unfolding run
store_flush-Touched c = record {
  r8 = refl;
  r9 = refl;
  trace =
      append_assoc c.trace (Event.store (add64 (c.r9 + c.r8 * 1) 0) 64 ∷ [])
        (Event.clwb (add64 (c.r9 + c.r8 * 1) 0) ∷ [])
      ∙ ap (λ a. c.trace ++ store_flush_line a) (plain_address c.r9 c.r8);
}

module _ (start_addr end_addr size fuel : ℕ) (c : Cpu) (size_fits : size ≤ 2 ^ 63 - 64)
    (positive : 0 < size) (order : start_addr < end_addr) (end_fits : end_addr + size ≤ 2 ^ 63)
    (size_fuel : size < fuel) (span_fuel : end_addr - start_addr < fuel) where
  -- With start_addr below end_addr, both and the next `size` bytes below 2 ^ 63, a `size` above 0
  -- that leaves room for one step, and fuel above `size` and the distance, the kernel ends, and its
  -- accesses are, in this order: for each chunk of `size` bytes that begins below end_addr, from
  -- start_addr up, a non-temporal load of each of the 64-byte pieces that cover it. No fence
  -- follows.
  pub seq_load-Traces :
      Traces
        (seq_load fuel start_addr end_addr size c)
        c
        (sequence load_line start_addr end_addr size)
  unfolding seq_load run
  seq_load-Traces =
      seq_loop-Traces _ load_line load-Touched fuel size size_fits size_fuel _ start_addr end_addr c
        refl refl positive order end_fits span_fuel

  -- With start_addr below end_addr, both and the next `size` bytes below 2 ^ 63, a `size` above 0
  -- that leaves room for one step, and fuel above `size` and the distance, the kernel ends, and its
  -- accesses are, in this order: for each chunk of `size` bytes that begins below end_addr, from
  -- start_addr up, a store and a write-back of each of the 64-byte pieces that cover it. No fence
  -- follows.
  pub seq_store-Traces :
      Traces
        (seq_store fuel start_addr end_addr size c)
        c
        (sequence store_flush_line start_addr end_addr size)
  unfolding seq_store load_zmm0 run
  seq_store-Traces =
      seq_loop-Traces _ store_flush_line store_flush-Touched fuel size size_fits size_fuel _
        start_addr end_addr c refl refl positive order end_fits span_fuel

  -- With start_addr below end_addr, both and the next `size` bytes below 2 ^ 63, a `size` above 0
  -- that leaves room for one step, and fuel above `size` and the distance, the kernel ends, and its
  -- accesses are, in this order: for each chunk of `size` bytes that begins below end_addr, from
  -- start_addr up, a store and a write-back of each of the 64-byte pieces that cover it. No fence
  -- follows.
  pub seq_clwb-Traces :
      Traces
        (seq_clwb fuel start_addr end_addr size c)
        c
        (sequence store_flush_line start_addr end_addr size)
  unfolding seq_clwb load_zmm0 run
  seq_clwb-Traces =
      seq_loop-Traces _ store_flush_line store_flush-Touched fuel size size_fits size_fuel _
        start_addr end_addr c refl refl positive order end_fits span_fuel

  -- With start_addr below end_addr, both and the next `size` bytes below 2 ^ 63, a `size` above 0
  -- that leaves room for one step, and fuel above `size` and the distance, the kernel ends, and its
  -- accesses are, in this order: for each chunk of `size` bytes that begins below end_addr, from
  -- start_addr up, a non-temporal store of each of the 64-byte pieces that cover it. No fence
  -- follows.
  pub seq_nt-Traces :
      Traces
        (seq_nt fuel start_addr end_addr size c)
        c
        (sequence stream_line start_addr end_addr size)
  unfolding seq_nt load_zmm0 run
  seq_nt-Traces =
      seq_loop-Traces _ stream_line stream-Touched fuel size size_fits size_fuel _ start_addr
        end_addr c refl refl positive order end_fits span_fuel

  module _ (ls : Lines) (no_dirty : NoDirty (effects c.trace ls)) where
    -- With start_addr below end_addr, both and the next `size` bytes below 2 ^ 63, a `size` above 0
    -- that leaves room for one step, and fuel above `size` and the distance: if no line was dirty
    -- before, `seq_nt` returns, and every line is durable once a memory fence follows.
    pub seq_nt-Durable :
        (c' : Cpu) × (seq_nt fuel start_addr end_addr size c ≡ some c')
        × Durable (effects (c'.trace ++ Event.mfence ∷ []) ls)
    seq_nt-Durable =
        let (c', returns, traced) = seq_nt-Traces in
        (
          c',
          returns,
          settled c.trace (c'.trace ++ Event.mfence ∷ [])
              (sequence stream_line start_addr end_addr size ++ Event.mfence ∷ []) ls
              (ap (λ es. es ++ Event.mfence ∷ []) traced ∙ append_assoc c.trace _ _)
              (Settles-append (sequence stream_line start_addr end_addr size) (Event.mfence ∷ [])
                (Tidy-concat_upto _ (chunks start_addr end_addr size) (λ i.
                  Tidy-concat_upto _ (pieces size)
                    (λ j. stream_line-Tidy (add64 (start_addr + size * i) (64 * j)))))
                mfence-Durable)
              no_dirty,
        )

    chunk-IsAligned :
        (i j : ℕ)
        → IsAligned start_addr
        → IsAligned size
        → IsAligned (add64 (start_addr + size * i) (64 * j))
    chunk-IsAligned i j h k =
        let e : size ≡ 64 * (size / 64) = omega arith in omega (arith, ap (λ (t : ℕ). t * i) e)

    -- With start_addr below end_addr, both and the next `size` bytes below 2 ^ 63, a `size` above 0
    -- that leaves room for one step, fuel above `size` and the distance, and start_addr and size
    -- multiples of 64: if no line was dirty before, `seq_store` returns, and every line is durable
    -- once a memory fence follows.
    pub seq_store-Durable :
        IsAligned start_addr
        → IsAligned size
        → (c' : Cpu) × (seq_store fuel start_addr end_addr size c ≡ some c')
          × Durable (effects (c'.trace ++ Event.mfence ∷ []) ls)
    seq_store-Durable start_aligned size_aligned =
        let (c', returns, traced) = seq_store-Traces in
        (
          c',
          returns,
          settled c.trace (c'.trace ++ Event.mfence ∷ [])
              (sequence store_flush_line start_addr end_addr size ++ Event.mfence ∷ []) ls
              (ap (λ es. es ++ Event.mfence ∷ []) traced ∙ append_assoc c.trace _ _)
              (Settles-append (sequence store_flush_line start_addr end_addr size)
                (Event.mfence ∷ [])
                (Tidy-concat_upto _ (chunks start_addr end_addr size) (λ i.
                  Tidy-concat_upto _ (pieces size) (λ j.
                    store_flush_line-Tidy (add64 (start_addr + size * i) (64 * j))
                      (chunk-IsAligned i j start_aligned size_aligned))))
                mfence-Durable)
              no_dirty,
        )
