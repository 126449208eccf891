-- ===== src/Memaccess/Durable.antt =====
-- Which of the data that the stride kernels of OptaneStudy/src/memaccess.c write is durable when
-- they return, by the rules of Machine/Persist.
use rw_sep.Prelude.{
  ℕ, zero, suc, ◌-◌, ◌*◌, ◌^◌, ◌≤◌, ◌<◌, List, [], ◌∷◌, ◌++◌, ◌≡◌, some, concat_upto, arith,
}
use rw_sep.Machine.{Event, Cpu, add64}
use rw_sep.Machine.Faults.{IsAligned, piece-IsAligned, round-IsAligned}
use rw_sep.Machine.Persist.{Lines, effects, effects-append, NoDirty, Durable}
use rw_sep.Memaccess.Stride.{stride_nt, stride_storeclwb, clwb_nt_mixed, stride_read_after_write}
use rw_sep.Memaccess.Advance.{stream_line, store_flush_line}
use rw_sep.Memaccess.Rounds.{pieces, sweep}
use rw_sep.Memaccess.Kernels.{
  strided, written_twice, stride_nt-Traces, stride_storeclwb-Traces, clwb_nt_mixed-Traces,
  stride_read_after_write-Traces,
}

-- Events that leave no line dirty if none was.
abbrev pub Tidy : List Event → Type 0
Tidy es = (ls : Lines) → NoDirty ls → NoDirty (effects es ls)

pub Tidy-append : (es fs : List Event) → Tidy es → Tidy fs → Tidy (es ++ fs)
Tidy-append es fs p q ls h = rw effects-append (q (effects es ls) (p ls h))

pub Tidy-concat_upto :
    (part : ℕ → List Event) (n : ℕ) → ((i : ℕ) → Tidy (part i)) → Tidy (concat_upto part n)
unfolding concat_upto effects
Tidy-concat_upto part zero tidy ls h = h
Tidy-concat_upto part (suc n) tidy ls h =
    Tidy-append (concat_upto part n) (part n) (Tidy-concat_upto part n tidy) (tidy n) ls h

pub store_flush_line-Tidy : (a : ℕ) → IsAligned a → Tidy (store_flush_line a)
unfolding effects
store_flush_line-Tidy a al ls h x = ground (arith, h x)

pub stream_line-Tidy : (a : ℕ) → Tidy (stream_line a)
unfolding effects
stream_line-Tidy a ls h x = ground (arith, h x)

pub mfence-Durable : (ls : Lines) → NoDirty ls → Durable (effects (Event.mfence ∷ []) ls)
unfolding effects
mfence-Durable ls h x = ground (arith, h x)

Durable-NoDirty : (ls : Lines) → Durable ls → NoDirty ls
Durable-NoDirty ls h x = ground (arith, h x)

-- Events that make every line durable if none was dirty.
abbrev pub Settles : List Event → Type 0
Settles es = (ls : Lines) → NoDirty ls → Durable (effects es ls)

pub Settles-append : (es fs : List Event) → Tidy es → Settles fs → Settles (es ++ fs)
Settles-append es fs p q ls h = rw effects-append (q (effects es ls) (p ls h))

Settles-Tidy : (es : List Event) → Settles es → Tidy es
Settles-Tidy es p ls h = Durable-NoDirty (effects es ls) (p ls h)

pub Settles-concat_upto :
    (part : ℕ → List Event) (n : ℕ)
    → ((i : ℕ) → Settles (part i))
    → Settles (concat_upto part (suc n))
unfolding concat_upto
Settles-concat_upto part n settles =
    Settles-append (concat_upto part n) (part n)
      (Tidy-concat_upto part n (λ i. Settles-Tidy (part i) (settles i))) (settles n)

sweep-Settles :
    (evs : ℕ → List Event) (size a : ℕ)
    → ((j : ℕ) → Tidy (evs (add64 a (64 * j))))
    → Settles (sweep evs size a)
sweep-Settles evs size a tidy =
    Settles-append (concat_upto (λ j. evs (add64 a (64 * j))) (pieces size)) (Event.mfence ∷ [])
      (Tidy-concat_upto (λ j. evs (add64 a (64 * j))) (pieces size) tidy) mfence-Durable

flushed-Settles : (size a : ℕ) → IsAligned a → Settles (sweep store_flush_line size a)
flushed-Settles size a h =
    sweep-Settles store_flush_line size a
      λ j. store_flush_line-Tidy (add64 a (64 * j)) (piece-IsAligned a j h)

streamed-Settles : (size a : ℕ) → Settles (sweep stream_line size a)
streamed-Settles size a = sweep-Settles stream_line size a λ j. stream_line-Tidy (add64 a (64 * j))

-- A run that appends `es` to the trace, in terms of the whole trace.
pub settled :
    (old new es : List Event) (ls : Lines)
    → new ≡ old ++ es
    → Settles es
    → NoDirty (effects old ls)
    → Durable (effects new ls)
settled old new es ls e settles h = rw (e, effects-append) (settles (effects old ls) h)

module _ (start_addr size skip delay count fuel : ℕ) (c : Cpu) (ls : Lines)
    (start_aligned : IsAligned start_addr) (skip_aligned : IsAligned skip)
    (size_fits : size ≤ 2 ^ 63 - 64) (delay_fits : delay < 2 ^ 63) (count_fits : count < 2 ^ 63)
    (size_fuel : size < fuel) (delay_fuel : delay < fuel) (count_fuel : count < fuel)
    (no_dirty : NoDirty (effects c.trace ls)) where
  base-IsAligned : (i : ℕ) → IsAligned (add64 start_addr (skip * i))
  base-IsAligned i = round-IsAligned start_addr skip i start_aligned skip_aligned

  -- With a start address and a stride that are multiples of 64, a size of at most 2 ^ 63 - 64, a
  -- delay and a count below 2 ^ 63, and fuel above each: if no line was dirty before, every line is durable
  -- when `stride_storeclwb` returns, and it returns.
  pub stride_storeclwb-Durable :
      (c' : Cpu) × (stride_storeclwb fuel start_addr size skip delay count c ≡ some c')
      × Durable (effects c'.trace ls)
  stride_storeclwb-Durable =
      let (c', returns, traced) =
        stride_storeclwb-Traces start_addr size skip delay count fuel c size_fits delay_fits
          count_fits size_fuel delay_fuel count_fuel in
      (
        c',
        returns,
        settled c.trace c'.trace (strided store_flush_line start_addr size skip count) ls traced
            (Settles-concat_upto (λ i. sweep store_flush_line size (add64 start_addr (skip * i)))
              (count - 1)
              (λ i. flushed-Settles size (add64 start_addr (skip * i)) (base-IsAligned i)))
            no_dirty,
      )

  -- With a start address and a stride that are multiples of 64, a size of at most 2 ^ 63 - 64, a
  -- delay and a count below 2 ^ 63, and fuel above each: if no line was dirty before, every line is durable
  -- when `stride_nt` returns, and it returns.
  pub stride_nt-Durable :
      (c' : Cpu) × (stride_nt fuel start_addr size skip delay count c ≡ some c')
      × Durable (effects c'.trace ls)
  stride_nt-Durable =
      let (c', returns, traced) =
        stride_nt-Traces start_addr size skip delay count fuel c size_fits delay_fits count_fits
          size_fuel delay_fuel count_fuel in
      (
        c',
        returns,
        settled c.trace c'.trace (strided stream_line start_addr size skip count) ls traced
            (Settles-concat_upto (λ i. sweep stream_line size (add64 start_addr (skip * i)))
              (count - 1) (λ i. streamed-Settles size (add64 start_addr (skip * i))))
            no_dirty,
      )

  -- With a start address and a stride that are multiples of 64, a size of at most 2 ^ 63 - 64, a
  -- delay and a count below 2 ^ 63, and fuel above each: if no line was dirty before, every line is durable
  -- when `clwb_nt_mixed` returns, and it returns.
  pub clwb_nt_mixed-Durable :
      (c' : Cpu) × (clwb_nt_mixed fuel start_addr size skip delay count c ≡ some c')
      × Durable (effects c'.trace ls)
  clwb_nt_mixed-Durable =
      let (c', returns, traced) =
        clwb_nt_mixed-Traces start_addr size skip delay count fuel c size_fits delay_fits count_fits
          size_fuel delay_fuel count_fuel in
      (
        c',
        returns,
        settled c.trace c'.trace (strided store_flush_line start_addr size skip count) ls traced
            (Settles-concat_upto (λ i. sweep store_flush_line size (add64 start_addr (skip * i)))
              (count - 1)
              (λ i. flushed-Settles size (add64 start_addr (skip * i)) (base-IsAligned i)))
            no_dirty,
      )

  -- With a start address and a stride that are multiples of 64, a size of at most 2 ^ 63 - 64, a
  -- delay and a count below 2 ^ 63, and fuel above each: if no line was dirty before, every line is durable
  -- when `stride_read_after_write` returns, and it returns.
  pub stride_read_after_write-Durable :
      (c' : Cpu) × (stride_read_after_write fuel start_addr size skip delay count c ≡ some c')
      × Durable (effects c'.trace ls)
  stride_read_after_write-Durable =
      let (c', returns, traced) =
        stride_read_after_write-Traces start_addr size skip delay count fuel c size_fits delay_fits
          count_fits size_fuel delay_fuel count_fuel in
      (
        c',
        returns,
        settled c.trace c'.trace (written_twice start_addr size skip count) ls traced
            (Settles-concat_upto
              (λ i.
                sweep store_flush_line size (add64 start_addr (skip * i))
                ++ sweep stream_line size (add64 start_addr (skip * i)))
              (count - 1)
              (λ i.
                Settles-append (sweep store_flush_line size (add64 start_addr (skip * i)))
                  (sweep stream_line size (add64 start_addr (skip * i)))
                  (Settles-Tidy _
                    (flushed-Settles size (add64 start_addr (skip * i)) (base-IsAligned i)))
                  (streamed-Settles size (add64 start_addr (skip * i)))))
            no_dirty,
      )
