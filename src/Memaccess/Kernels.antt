-- ===== src/Memaccess/Kernels.antt =====
-- What the stride kernels of OptaneStudy/src/memaccess.c access, and in which order.
use rw_sep.Prelude.{
  ℕ, ◌-◌, ◌*◌, ◌^◌, ◌≤◌, ◌<◌, List, [], ◌∷◌, ◌++◌, ◌≡◌, refl, ◌∙◌, inr, append_assoc, concat_upto,
}
use rw_sep.Prelude.Loops.{◌>>=◌}
use rw_sep.Machine.{Event, Cpu, add64, run}
use rw_sep.Memaccess.Stride.{
  clear_counters, load_zmm0, fenced, stride_load, stride_nt, stride_store, stride_storeclwb,
  clwb_nt_mixed, stride_read_after_write,
}
use rw_sep.Memaccess.Macros.{sizebtld_64, sizebtnt_64, sizebtst_64, sizebtstflush_64}
use rw_sep.Memaccess.Advance.{
  load_line, stream_line, store_line, store_flush_line, sizebtld_64-Moved, sizebtnt_64-Moved,
  sizebtst_64-Moved, sizebtstflush_64-Moved,
}
use rw_sep.Machine.Faults.{
  NoFault, NoFault-append, NoFault-concat_upto, IsAligned, piece-IsAligned, round-IsAligned,
}
use rw_sep.Memaccess.Rounds.{at_least_one, Traces, Completes, Works, pieces, sweep, fenced-Works}
use rw_sep.Memaccess.Traces.{stride_loop-Traces}

-- The events of a stride: in round `i`, the pieces of `size` bytes from start_addr + skip * i up,
-- each with the events `evs`, and then a fence.
abbrev pub strided : (ℕ → List Event) → (start_addr size skip count : ℕ) → List Event
strided evs start_addr size skip count =
    concat_upto (λ i. sweep evs size (add64 start_addr (skip * i))) (at_least_one count)

-- Each round stores and flushes its pieces, fences, streams over them, and fences.
abbrev pub written_twice : (start_addr size skip count : ℕ) → List Event
written_twice start_addr size skip count =
    concat_upto
      (λ i.
        let a = add64 start_addr (skip * i) in
        sweep store_flush_line size a ++ sweep stream_line size a)
      (at_least_one count)

-- A stride of aligned pieces meets no fault, if its start and its steps are aligned.
pub strided-NoFault :
    (evs : ℕ → List Event) (start_addr size skip count : ℕ)
    → ((a : ℕ) → IsAligned a → NoFault (evs a))
    → IsAligned start_addr
    → IsAligned skip
    → NoFault (strided evs start_addr size skip count)
strided-NoFault evs start_addr size skip count fit start skips =
    NoFault-concat_upto (λ i. sweep evs size (add64 start_addr (skip * i))) (at_least_one count)
      (λ i.
        let a = add64 start_addr (skip * i) in
        NoFault-append (concat_upto (λ j. evs (add64 a (64 * j))) (pieces size)) (Event.mfence ∷ [])
          (NoFault-concat_upto (λ j. evs (add64 a (64 * j))) (pieces size)
            (λ j.
              fit (add64 a (64 * j))
                (piece-IsAligned a j (round-IsAligned start_addr skip i start skips))))
          (tt, tt))

pub store_flush_line-NoFault : (a : ℕ) → IsAligned a → NoFault (store_flush_line a)
store_flush_line-NoFault a al = (inr al, (tt, tt))

pub store_line-NoFault : (a : ℕ) → IsAligned a → NoFault (store_line a)
store_line-NoFault a al = (inr al, tt)

pub stream_line-NoFault : (a : ℕ) → IsAligned a → NoFault (stream_line a)
stream_line-NoFault a al = (inr al, tt)

cleared :
    (c : Cpu)
    → ((run clear_counters c).r8 ≡ 0)
      × ((run clear_counters c).r11 ≡ 0)
      × ((run clear_counters c).trace ≡ c.trace)
unfolding run clear_counters
cleared c = (refl, refl, refl)

cleared_zmm0 :
    (a : ℕ) (c : Cpu)
    → ((run (clear_counters ++ load_zmm0 a) c).r8 ≡ 0)
      × ((run (clear_counters ++ load_zmm0 a) c).r11 ≡ 0)
      × ((run (clear_counters ++ load_zmm0 a) c).trace ≡ c.trace)
unfolding run clear_counters load_zmm0
cleared_zmm0 a c = (refl, refl, refl)

twice-Works :
    (size fuel : ℕ)
    → size ≤ 2 ^ 63 - 64
    → size < fuel
    → Works
        (λ c. fenced fuel sizebtstflush_64 size c >>= fenced fuel sizebtnt_64 size)
        (λ a. sweep store_flush_line size a ++ sweep stream_line size a)
twice-Works size fuel fits enough c z =
    let (c1, first, flushed) =
      fenced-Works sizebtstflush_64 store_flush_line sizebtstflush_64-Moved size fuel fits enough c
        z in
    let (c2, second, streamed) =
      fenced-Works sizebtnt_64 stream_line sizebtnt_64-Moved size fuel fits enough c1 flushed.r10 in
    (
      c2,
      rw (first, second),
      record {
        r8 = streamed.r8 ∙ flushed.r8;
        r9 = streamed.r9 ∙ flushed.r9;
        r11 = streamed.r11 ∙ flushed.r11;
        r10 = streamed.r10;
        trace = rw (streamed.trace, flushed.trace, flushed.r9) (append_assoc c.trace _ _);
      },
    )

module _ (start_addr size skip delay count fuel : ℕ) (c : Cpu) (size_fits : size ≤ 2 ^ 63 - 64)
    (delay_fits : delay < 2 ^ 63) (count_fits : count < 2 ^ 63) (size_fuel : size < fuel)
    (delay_fuel : delay < fuel) (count_fuel : count < fuel) where
  -- With a size of at most 2 ^ 63 - 64, a delay and a count below 2 ^ 63, and fuel above each, the
  -- kernel ends but for faults, and its accesses are, in this order: for each of `count` rounds
  -- (one if count is 0), a non-temporal load of the 64-byte pieces that cover `size` bytes (one if
  -- size is 0) from start_addr + skip * round up, and one memory fence behind them.
  pub stride_load-Traces :
      Traces
        (stride_load fuel start_addr size skip delay count c)
        c
        (strided load_line start_addr size skip count)
  unfolding stride_load
  stride_load-Traces =
      let z = cleared c in
      stride_loop-Traces (fenced fuel sizebtld_64 size) (sweep load_line size)
        (fenced-Works sizebtld_64 load_line sizebtld_64-Moved size fuel size_fits size_fuel)
        start_addr skip delay fuel delay_fits delay_fuel clear_counters count c z.0 z.1 z.2
        count_fits count_fuel

  -- With a size of at most 2 ^ 63 - 64, a delay and a count below 2 ^ 63, and fuel above each, the
  -- kernel ends but for faults, and its accesses are, in this order: for each of `count` rounds
  -- (one if count is 0), a non-temporal store of the 64-byte pieces that cover `size` bytes (one if
  -- size is 0) from start_addr + skip * round up, and one memory fence behind them.
  pub stride_nt-Traces :
      Traces
        (stride_nt fuel start_addr size skip delay count c)
        c
        (strided stream_line start_addr size skip count)
  unfolding stride_nt
  stride_nt-Traces =
      let z = cleared_zmm0 start_addr c in
      stride_loop-Traces (fenced fuel sizebtnt_64 size) (sweep stream_line size)
        (fenced-Works sizebtnt_64 stream_line sizebtnt_64-Moved size fuel size_fits size_fuel)
        start_addr skip delay fuel delay_fits delay_fuel (clear_counters ++ load_zmm0 start_addr)
        count c z.0 z.1 z.2 count_fits count_fuel

  -- With a size of at most 2 ^ 63 - 64, a delay and a count below 2 ^ 63, and fuel above each, the
  -- kernel ends but for faults, and its accesses are, in this order: for each of `count` rounds
  -- (one if count is 0), a plain store of the 64-byte pieces that cover `size` bytes (one if size
  -- is 0) from start_addr + skip * round up, and one memory fence behind them.
  pub stride_store-Traces :
      Traces
        (stride_store fuel start_addr size skip delay count c)
        c
        (strided store_line start_addr size skip count)
  unfolding stride_store
  stride_store-Traces =
      let z = cleared_zmm0 start_addr c in
      stride_loop-Traces (fenced fuel sizebtst_64 size) (sweep store_line size)
        (fenced-Works sizebtst_64 store_line sizebtst_64-Moved size fuel size_fits size_fuel)
        start_addr skip delay fuel delay_fits delay_fuel (clear_counters ++ load_zmm0 start_addr)
        count c z.0 z.1 z.2 count_fits count_fuel

  -- With a size of at most 2 ^ 63 - 64, a delay and a count below 2 ^ 63, and fuel above each, the
  -- kernel ends but for faults, and its accesses are, in this order: for each of `count` rounds
  -- (one if count is 0), a store and a write-back of the 64-byte pieces that cover `size` bytes
  -- (one if size is 0) from start_addr + skip * round up, and one memory fence behind them.
  pub stride_storeclwb-Traces :
      Traces
        (stride_storeclwb fuel start_addr size skip delay count c)
        c
        (strided store_flush_line start_addr size skip count)
  unfolding stride_storeclwb
  stride_storeclwb-Traces =
      let z = cleared_zmm0 start_addr c in
      stride_loop-Traces (fenced fuel sizebtstflush_64 size) (sweep store_flush_line size)
        (fenced-Works sizebtstflush_64 store_flush_line sizebtstflush_64-Moved size fuel size_fits
          size_fuel)
        start_addr skip delay fuel delay_fits delay_fuel (clear_counters ++ load_zmm0 start_addr)
        count c z.0 z.1 z.2 count_fits count_fuel

  -- With a size of at most 2 ^ 63 - 64, a delay and a count below 2 ^ 63, and fuel above each, the
  -- kernel ends but for faults, and its accesses are, in this order: for each of `count` rounds
  -- (one if count is 0), a store and a write-back of the 64-byte pieces that cover `size` bytes
  -- (one if size is 0) from start_addr + skip * round up, and one memory fence behind them.
  pub clwb_nt_mixed-Traces :
      Traces
        (clwb_nt_mixed fuel start_addr size skip delay count c)
        c
        (strided store_flush_line start_addr size skip count)
  unfolding clwb_nt_mixed sizebtstflush_64
  clwb_nt_mixed-Traces =
      let z = cleared_zmm0 start_addr c in
      stride_loop-Traces (fenced fuel sizebtstflush_64 size) (sweep store_flush_line size)
        (fenced-Works sizebtstflush_64 store_flush_line sizebtstflush_64-Moved size fuel size_fits
          size_fuel)
        start_addr skip delay fuel delay_fits delay_fuel (clear_counters ++ load_zmm0 start_addr)
        count c z.0 z.1 z.2 count_fits count_fuel

  -- With a size of at most 2 ^ 63 - 64, a delay and a count below 2 ^ 63, and fuel above each, the
  -- kernel ends but for faults. Each of its `count` rounds (one if count is 0) stores and writes
  -- back the 64-byte pieces that cover `size` bytes from start_addr + skip * round up, fences,
  -- streams over the same pieces in the same order, and fences again.
  pub stride_read_after_write-Traces :
      Traces
        (stride_read_after_write fuel start_addr size skip delay count c)
        c
        (written_twice start_addr size skip count)
  unfolding stride_read_after_write
  stride_read_after_write-Traces =
      let z = cleared_zmm0 start_addr c in
      stride_loop-Traces _ (λ a. sweep store_flush_line size a ++ sweep stream_line size a)
        (twice-Works size fuel size_fits size_fuel) start_addr skip delay fuel delay_fits delay_fuel
        (clear_counters ++ load_zmm0 start_addr) count c z.0 z.1 z.2 count_fits count_fuel

-- At multiples of 64 for the start address and the stride, with a size of at most 2 ^ 63 - 64, a
-- delay and a count below 2 ^ 63, and fuel above each, stride_storeclwb ends without a fault, and
-- its accesses are, in this order: for each of `count` rounds (one if count is 0), a store and a
-- write-back of the 64-byte pieces that cover `size` bytes (one if size is 0) from start_addr +
-- skip * round up, and one memory fence behind them.
pub stride_storeclwb-Completes :
    (start_addr size skip delay count fuel : ℕ) (c : Cpu)
    → IsAligned start_addr
    → IsAligned skip
    → size ≤ 2 ^ 63 - 64
    → delay < 2 ^ 63
    → count < 2 ^ 63
    → size < fuel
    → delay < fuel
    → count < fuel
    → Completes
        (stride_storeclwb fuel start_addr size skip delay count c)
        c
        (strided store_flush_line start_addr size skip count)
stride_storeclwb-Completes start_addr size skip delay count fuel c start skips size_fits delay_fits
      count_fits size_fuel delay_fuel count_fuel =
    (
      stride_storeclwb-Traces start_addr size skip delay count fuel c size_fits delay_fits
          count_fits size_fuel delay_fuel count_fuel,
      strided-NoFault store_flush_line start_addr size skip count store_flush_line-NoFault start
          skips,
    )
