-- ===== src/Afterwrite/Reorder.antt =====
-- The tasks of OptaneStudy/microbenchmark/read_after_write.cpp that alternate between two buffers
-- do to each what the tasks that pass over one and then the other do.
use rw_sep.Prelude.{
  ℕ, ◌+◌, ◌-◌, ◌*◌, ◌/◌, ◌^◌, ◌≤◌, ◌<◌, some, List, [], ◌++◌, ◌≡◌, refl, ap, ◌∙◌, sym, append-nil,
  concat_upto, arith,
}
use rw_sep.Machine.{Event, Cpu, add64}
use rw_sep.Machine.Faults.{NoFault, NoFault-append, IsAligned}
use rw_sep.Memaccess.Advance.{stream_line, store_flush_line}
use rw_sep.Memaccess.Rounds.{at_least_one}
use rw_sep.Memaccess.Kernels.{strided}
use rw_sep.Afterwrite.{task_separate, task_mixed}
use rw_sep.Afterwrite.Order.{
  choose, if_store, if_stream, choose-append, choose-concat_upto, concat_upto_ext,
  concat_upto_empty, concat_upto_chunks, line_events, choose-strided, choose-chunk,
}
use rw_sep.Afterwrite.Tasks.{
  mixed_round, clock_events, last_events, separate_events, mixed_events, task_separate-Traces,
  task_mixed-Traces, separate_events-NoFault, mixed_events-NoFault,
}

-- A choice that keeps neither fences nor readings of the clock.
record Quiet (f : Event → List Event) : Type 0 where
  mfence : f Event.mfence ≡ []
  lfence : f Event.lfence ≡ []
  rdtscp : f Event.rdtscp ≡ []

module _ (f : Event → List Event) (quiet : Quiet f) (count grn written streamed : ℕ)
    (some_grn : 0 < grn) (some_count : 0 < count) where
  abbrev of_written : ℕ → List Event
  of_written = line_events f store_flush_line written

  abbrev of_streamed : ℕ → List Event
  of_streamed = line_events f stream_line streamed

  clock_first : (es : List Event) → choose f (clock_events ++ es) ≡ choose f es
  clock_first es = rw (quiet.rdtscp, quiet.lfence) refl

  clock_last : (es : List Event) → choose f (es ++ clock_events) ≡ choose f es
  clock_last es =
      choose-append f es clock_events
      ∙ ap (λ fs. choose f es ++ fs) (clock_first [])
      ∙ append-nil (choose f es)

  end_last : (es : List Event) → choose f (es ++ last_events) ≡ choose f es
  end_last es =
      choose-append f es last_events
      ∙ ap (λ fs. choose f es ++ (fs ++ choose f clock_events)) quiet.mfence
      ∙ ap (λ fs. choose f es ++ fs) (clock_first [])
      ∙ append-nil (choose f es)

  separate_picked :
      choose f (separate_events count written streamed)
      ≡ concat_upto of_written count ++ concat_upto of_streamed count
  separate_picked =
      let first = strided store_flush_line written 64 64 count in
      let second = strided stream_line streamed 64 64 count in
      let all : at_least_one count ≡ count = omega arith in
      end_last (((clock_events ++ first) ++ clock_events) ++ second)
      ∙ choose-append f ((clock_events ++ first) ++ clock_events) second
      ∙ ap (λ es. es ++ choose f second) (clock_last (clock_events ++ first) ∙ clock_first first)
      ∙ ap (λ es. es ++ choose f second)
          (choose-strided f quiet.mfence store_flush_line written count)
      ∙ ap (λ es. concat_upto of_written (at_least_one count) ++ es)
          (choose-strided f quiet.mfence stream_line streamed count)
      ∙ ap (λ (n : ℕ). concat_upto of_written n ++ concat_upto of_streamed n) all

  round_picked :
      (i : ℕ)
      → choose f (mixed_round grn written streamed i)
        ≡ concat_upto (λ j. of_written (grn * i + j)) grn
          ++ concat_upto (λ j. of_streamed (grn * i + j)) grn
  round_picked i =
      choose-append f (strided store_flush_line (add64 written (i * grn * 64)) (grn * 64) 0 1)
        (strided stream_line (add64 streamed (i * grn * 64)) (grn * 64) 0 1)
      ∙ ap
          (λ es.
            es ++ choose f (strided stream_line (add64 streamed (i * grn * 64)) (grn * 64) 0 1))
          (choose-chunk f quiet.mfence store_flush_line written grn i some_grn)
      ∙ ap (λ es. concat_upto (λ j. of_written (grn * i + j)) grn ++ es)
          (choose-chunk f quiet.mfence stream_line streamed grn i some_grn)

  mixed_picked :
      choose f (mixed_events count grn written streamed)
      ≡ concat_upto
          (λ i.
            concat_upto (λ j. of_written (grn * i + j)) grn
            ++ concat_upto (λ j. of_streamed (grn * i + j)) grn)
          (count / grn)
  mixed_picked =
      let rounds = concat_upto (λ k. mixed_round grn written streamed (0 + k)) (count / grn) in
      end_last ((clock_events ++ clock_events) ++ rounds)
      ∙ clock_first (clock_events ++ rounds)
      ∙ clock_first rounds
      ∙ choose-concat_upto f (λ k. mixed_round grn written streamed (0 + k)) (count / grn)
      ∙ concat_upto_ext _ _ (count / grn) (λ i.
        ap (λ (m : ℕ). choose f (mixed_round grn written streamed m)) (omega arith)
        ∙ round_picked i)

  -- Where nothing is picked from one of the passes, the tasks agree.
  agree_written :
      ((k : ℕ) → of_streamed k ≡ [])
      → count ≡ grn * (count / grn)
      → choose f (separate_events count written streamed)
        ≡ choose f (mixed_events count grn written streamed)
  agree_written nothing divides =
      separate_picked
      ∙ ap (λ es. concat_upto of_written count ++ es) (concat_upto_empty of_streamed count nothing)
      ∙ append-nil (concat_upto of_written count)
      ∙ ap (concat_upto of_written) divides
      ∙ sym (concat_upto_chunks of_written grn (count / grn))
      ∙ concat_upto_ext _ _ (count / grn) (λ i.
        sym (append-nil (concat_upto (λ j. of_written (grn * i + j)) grn))
        ∙ ap (λ es. concat_upto (λ j. of_written (grn * i + j)) grn ++ es)
            (sym (concat_upto_empty _ grn (λ j. nothing (grn * i + j)))))
      ∙ sym mixed_picked

  agree_streamed :
      ((k : ℕ) → of_written k ≡ [])
      → count ≡ grn * (count / grn)
      → choose f (separate_events count written streamed)
        ≡ choose f (mixed_events count grn written streamed)
  agree_streamed nothing divides =
      separate_picked
      ∙ ap (λ es. es ++ concat_upto of_streamed count) (concat_upto_empty of_written count nothing)
      ∙ ap (concat_upto of_streamed) divides
      ∙ sym (concat_upto_chunks of_streamed grn (count / grn))
      ∙ concat_upto_ext _ _ (count / grn) (λ i.
        ap (λ es. es ++ concat_upto (λ j. of_streamed (grn * i + j)) grn)
          (sym (concat_upto_empty _ grn (λ j. nothing (grn * i + j)))))
      ∙ sym mixed_picked

appended :
    (f : Event → List Event) (c c1 c2 : Cpu) (es fs : List Event)
    → c1.trace ≡ c.trace ++ es
    → c2.trace ≡ c.trace ++ fs
    → choose f es ≡ choose f fs
    → choose f c1.trace ≡ choose f c2.trace
appended f c c1 c2 es fs h k e =
    ap (choose f) h
    ∙ choose-append f c.trace es
    ∙ ap (λ es. choose f c.trace ++ es) e
    ∙ sym (choose-append f c.trace fs)
    ∙ sym (ap (choose f) k)

pub quotient-small : (count grn : ℕ) → count < 2 ^ 31 → count / grn < 2 ^ 31
quotient-small count grn h = grind arith

-- For two buffers at multiples of 64, a positive count below 2 ^ 31 that a chunk length `grn`
-- divides, a chunk of at most 2 ^ 63 - 64 bytes, and fuel above each and the delay: the task that
-- stores one whole buffer and then streams to the other, and the task that alternates between them
-- chunk by chunk, both end, without a fault if there was none before; they have stored and flushed
-- the same lines in the same order, and streamed to the same lines in the same order.
pub task_mixed_reorders :
    (fuel count grn written streamed : ℕ) (c : Cpu)
    → IsAligned written
    → IsAligned streamed
    → NoFault c.trace
    → 0 < grn
    → 0 < count
    → count ≡ grn * (count / grn)
    → grn * 64 ≤ 2 ^ 63 - 64
    → count < 2 ^ 31
    → grn * 64 < fuel
    → count < fuel
    → 200 < fuel
    → (c1 : Cpu) × (c2 : Cpu) × (task_separate fuel count written streamed c ≡ some c1)
      × (task_mixed fuel count grn written streamed c ≡ some c2)
      × NoFault c1.trace
      × NoFault c2.trace
      × (choose if_store c1.trace ≡ choose if_store c2.trace)
      × (choose if_stream c1.trace ≡ choose if_stream c2.trace)
task_mixed_reorders fuel count grn written streamed c at_written at_streamed sound some_grn
      some_count divides fits count_fits grn_fuel count_fuel delay_fuel =
    let (c1, returns, traced) =
      task_separate-Traces fuel count written streamed c count_fits count_fuel delay_fuel in
    let (c2, returns', traced') =
      task_mixed-Traces fuel count grn written streamed c fits grn_fuel delay_fuel
        (quotient-small count grn count_fits) in
    (
      c1,
      c2,
      returns,
      returns',
      rw traced (
          NoFault-append c.trace (separate_events count written streamed) sound
            (separate_events-NoFault count written streamed at_written at_streamed)),
      rw traced' (
          NoFault-append c.trace (mixed_events count grn written streamed) sound
            (mixed_events-NoFault count grn written streamed at_written at_streamed)),
      appended if_store c c1 c2 _ _ traced traced' (
          agree_written if_store (record { mfence = refl; lfence = refl; rdtscp = refl }) count grn
            written streamed some_grn some_count (λ k. refl) divides),
      appended if_stream c c1 c2 _ _ traced traced' (
          agree_streamed if_stream (record { mfence = refl; lfence = refl; rdtscp = refl }) count
            grn written streamed some_grn some_count (λ k. refl) divides),
    )
