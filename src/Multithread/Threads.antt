-- ===== src/Multithread/Threads.antt =====
-- Threads of OptaneStudy/microbenchmark/rw_sep_multithread.cpp on buffers of their own: in whatever
-- order their accesses interleave, each line sees those of its own thread, in that thread's order.
use rw_sep.Prelude.{
  ℕ, zero, suc, ◌+◌, ◌*◌, ◌/◌, ◌^◌, ◌<◌, ◌≤◌, ◌≡◌, refl, ap, ◌∙◌, false, ◌⊎◌, List, [], ◌∷◌, ◌++◌,
  All, map, Option, ◌==◌, ◌%◌, concat_upto, if◌then◌else◌, arith,
}
use rw_sep.Machine.{Event, Cpu, add64}
use rw_sep.Memaccess.Advance.{stream_line, store_flush_line}
use rw_sep.Memaccess.Rounds.{Traces, at_least_one}
use rw_sep.Memaccess.Kernels.{strided, stride_nt-Traces, stride_storeclwb-Traces}
use rw_sep.Afterwrite.Order.{choose, choose-strided, line_events}
use rw_sep.Multithread.{
  Foo, sizebtnt_64_avx512, sizebtstflush_64_avx512, run_stride_nt, run_stride_storeclwb, set_arg,
}
use rw_sep.Memaccess.Stride.{stride_loop, stride_storeclwb, stride_nt}
use rw_sep.Memaccess.Macros.{sizebtstflush_64, sizebtnt_64}
use rw_sep.Multithread.Interleaved.{Interleaving, Interleaving-own}

-- The accesses to one line.
abbrev pub touching : (x : ℕ) → Event → List Event
touching x (Event.store a n) = if a / 64 == x then Event.store a n ∷ [] else []
touching x (Event.clwb a) = if a / 64 == x then Event.clwb a ∷ [] else []
touching x (Event.nt_store a n) = if a / 64 == x then Event.nt_store a n ∷ [] else []
touching x e = []

-- A thread runs one of the two functions on a buffer.
pub data Role : Type 0 where
  storeclwb nt : Role

pub record Thread : Type 0 where
  pub role : Role
  pub buf : ℕ

-- What `set_arg` sets for a buffer, with the values that the job passes.
abbrev pub foo_of : (count buf : ℕ) → Foo
foo_of count buf = record {
  start_addr = buf;
  access_size = 64;
  stride_skip = 64;
  delay = 200;
  count = count;
}

abbrev pub run_thread : ℕ → (count : ℕ) → Thread → Cpu → Option Cpu
run_thread fuel count t = elim t.role [
  | storeclwb ↦ run_stride_storeclwb fuel (foo_of count t.buf)
  | nt ↦ run_stride_nt fuel (foo_of count t.buf)
]

abbrev pub line_of : Role → ℕ → List Event
line_of storeclwb = store_flush_line
line_of nt = stream_line

abbrev pub trace_of : (count : ℕ) → Thread → List Event
trace_of count t = strided (line_of t.role) t.buf 64 64 count

abbrev pub traces_of : (count : ℕ) → List Thread → List (List Event)
traces_of count [] = []
traces_of count (t ∷ ts) = trace_of count t ∷ traces_of count ts

-- The buffer of a thread, of `count` lines, does not have line `x`.
pub record Elsewhere (count x : ℕ) (t : Thread) : Type 0 where
  pub aligned : t.buf % 64 ≡ 0
  pub room : t.buf + 64 * count < 2 ^ 64
  pub outside : (x < t.buf / 64) ⊎ (t.buf / 64 + count ≤ x)

concat_upto_none {ℓ} :
    {A : Type ℓ} (f : ℕ → List A) (n : ℕ) → ((i : ℕ) → i < n → f i ≡ []) → concat_upto f n ≡ []
unfolding concat_upto
concat_upto_none f zero h = refl
concat_upto_none f (suc n) h =
    rw (concat_upto_none f n (λ i k. h i (omega arith)), h n (omega arith)) refl

line-Elsewhere :
    (role : Role) (buf count x k : ℕ)
    → Elsewhere count x (record { role = role; buf = buf })
    → k < count
    → line_events (touching x) (line_of role) buf k ≡ []
line-Elsewhere storeclwb buf count x k e h =
    let other : (add64 buf (64 * k) / 64 == x) ≡ false =
      ground (arith, e.aligned, e.room, e.outside) in
    rw other refl
line-Elsewhere nt buf count x k e h =
    let other : (add64 buf (64 * k) / 64 == x) ≡ false =
      ground (arith, e.aligned, e.room, e.outside) in
    rw other refl

thread-Elsewhere :
    (count x : ℕ) (t : Thread)
    → 0 < count
    → Elsewhere count x t
    → choose (touching x) (trace_of count t) ≡ []
thread-Elsewhere count x t some_count e =
    let all : at_least_one count ≡ count = omega arith in
    choose-strided (touching x) refl (line_of t.role) t.buf count
    ∙ ap (concat_upto (line_events (touching x) (line_of t.role) t.buf)) all
    ∙ concat_upto_none (line_events (touching x) (line_of t.role) t.buf) count
        (λ k h. line-Elsewhere t.role t.buf count x k e h)

threads-Elsewhere :
    (count x : ℕ) (ts : List Thread)
    → 0 < count
    → All (Elsewhere count x) ts
    → All (λ es. choose (touching x) es ≡ []) (traces_of count ts)
threads-Elsewhere count x [] some_count h = tt
threads-Elsewhere count x (t ∷ ts) some_count h =
    (thread-Elsewhere count x t some_count h.0, threads-Elsewhere count x ts some_count h.1)

traces_of-append :
    (count : ℕ) (ts us : List Thread)
    → traces_of count (ts ++ us) ≡ traces_of count ts ++ traces_of count us
traces_of-append count [] us = refl
traces_of-append count (t ∷ ts) us = ap (trace_of count t ∷◌) (traces_of-append count ts us)

run_thread-Traces :
    (fuel count : ℕ) (role : Role) (b : ℕ) (c : Cpu)
    → count < 2 ^ 63
    → count < fuel
    → 200 < fuel
    → Traces
        (run_thread fuel count (record { role = role; buf = b }) c)
        c
        (trace_of count (record { role = role; buf = b }))
unfolding run_stride_nt run_stride_storeclwb stride_loop stride_storeclwb stride_nt sizebtstflush_64
    sizebtnt_64 sizebtnt_64_avx512 sizebtstflush_64_avx512
run_thread-Traces fuel count storeclwb b c fits enough delay_fuel =
    stride_storeclwb-Traces b 64 64 200 count fuel c (omega arith) (omega arith) fits (omega arith)
      delay_fuel enough
run_thread-Traces fuel count nt b c fits enough delay_fuel =
    stride_nt-Traces b 64 64 200 count fuel c (omega arith) (omega arith) fits (omega arith)
      delay_fuel enough

foos_of : (count : ℕ) (bufs : List ℕ) → set_arg 64 64 200 count bufs ≡ map (foo_of count) bufs
unfolding set_arg
foos_of count [] = refl
foos_of count (b ∷ bufs) = ap (foo_of count b ∷◌) (foos_of count bufs)

-- For threads on buffers of `count` lines, with the values that `set_arg` gets, a positive count
-- that is not negative as `long`, and fuel above it and the delay: `set_arg` gives each thread its
-- buffer, and each thread ends. Of the accesses of all threads, in whatever order they interleave,
-- those to a line outside the buffers of all threads but one, which are aligned and do not wrap
-- round, are those that this thread makes, in its order.
pub threads_keep_order :
    (fuel count x : ℕ) (before : List Thread) (t : Thread) (after : List Thread) (gs : List Event)
    (bufs : List ℕ) (c : Cpu)
    → 0 < count
    → count < 2 ^ 63
    → count < fuel
    → 200 < fuel
    → Interleaving (traces_of count (before ++ t ∷ after)) gs
    → All (Elsewhere count x) before
    → All (Elsewhere count x) after
    → (set_arg 64 64 200 count bufs ≡ map (foo_of count) bufs)
      × Traces (run_thread fuel count t c) c (trace_of count t)
      × (choose (touching x) gs ≡ choose (touching x) (trace_of count t))
threads_keep_order fuel count x before t after gs bufs c some_count fits enough delay_fuel runs
      apart apart' =
    (
      foos_of count bufs,
      run_thread-Traces fuel count t.role t.buf c fits enough delay_fuel,
      Interleaving-own (touching x) (traces_of count before) (trace_of count t)
          (traces_of count after) gs (rw traces_of-append at runs)
          (threads-Elsewhere count x before some_count apart)
          (threads-Elsewhere count x after some_count apart'),
    )
