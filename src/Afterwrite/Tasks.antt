-- ===== src/Afterwrite/Tasks.antt =====
-- What the tasks of OptaneStudy/microbenchmark/read_after_write.cpp do to memory.
use rw_sep.Prelude.{
  ℕ, zero, suc, ◌+◌, ◌-◌, ◌*◌, ◌/◌, ◌^◌, ◌≤◌, ◌<◌, Option, some, List, [], ◌∷◌, ◌++◌, ◌≡◌, refl, ap,
  ◌∙◌, sym, append-nil, append_assoc, concat_upto, arith,
}
use rw_sep.Prelude.Loops.{◌>>=◌}
use rw_sep.Machine.{Event, Cpu, add64, run}
use rw_sep.Memaccess.Advance.{stream_line, store_flush_line}
use rw_sep.Memaccess.Stride.{stride_nt, stride_storeclwb}
use rw_sep.Memaccess.Rounds.{Traces}
use rw_sep.Machine.Faults.{NoFault, NoFault-append, NoFault-concat_upto, IsAligned}
use rw_sep.Memaccess.Kernels.{
  strided, stride_nt-Traces, stride_storeclwb-Traces, strided-NoFault, store_flush_line-NoFault,
  stream_line-NoFault,
}
use rw_sep.Afterwrite.{
  inc_int, empty_loop, read_clock, finish, task_separate, mixed_loop, task_mixed,
}

-- The events of one round of the mixed loop.
abbrev pub mixed_round : (grn written streamed i : ℕ) → List Event
mixed_round grn written streamed i =
    strided store_flush_line (add64 written (i * grn * 64)) (grn * 64) 0 1
    ++ strided stream_line (add64 streamed (i * grn * 64)) (grn * 64) 0 1

-- A run whose stages append their events.
Traces-then :
    (r : Cpu → Option Cpu) (m : Option Cpu) (c : Cpu) (es fs : List Event)
    → Traces m c es
    → ((c1 : Cpu) → Traces (r c1) c1 fs)
    → Traces (m >>= r) c (es ++ fs)
Traces-then r m c es fs (c1, e, t) next =
    let (c2, e', t') = next c1 in
    (c2, rw (e, e') refl, t' ∙ ap (λ old. old ++ fs) t ∙ append_assoc c.trace es fs)

rounds_from :
    (f : ℕ → List Event) (i left : ℕ)
    → concat_upto (λ k. f (i + k)) (suc left) ≡ f i ++ concat_upto (λ k. f (i + 1 + k)) left
unfolding concat_upto
rounds_from f i zero = ap f (omega arith) ∙ sym (append-nil (f i))
rounds_from f i (suc left) =
    ap (λ es. es ++ f (i + suc left)) (rounds_from f i left)
    ∙ append_assoc (f i) _ (f (i + suc left))
    ∙ ap (λ (p : ℕ). f i ++ (concat_upto (λ k. f (i + 1 + k)) left ++ f p)) (omega arith)

inc_int-some : (i : ℕ) → i + 1 < 2 ^ 31 → inc_int i ≡ some (i + 1)
unfolding inc_int
inc_int-some i h = ground arith

empty_loop_ends : (left i : ℕ) → i + left < 2 ^ 31 → empty_loop left i ≡ some (i + left)
unfolding empty_loop
empty_loop_ends zero i h = ap some (omega arith)
empty_loop_ends (suc left) i h =
    rw (inc_int-some i (omega arith))
      (empty_loop_ends left (i + 1) (omega arith) ∙ ap some (omega arith))

module _ (fuel grn written streamed : ℕ) (fits : grn * 64 ≤ 2 ^ 63 - 64) (enough : grn * 64 < fuel)
    (delay_fuel : 200 < fuel) where
  mixed_loop-Traces :
      (left i : ℕ) (c : Cpu)
      → i + left < 2 ^ 31
      → Traces
          (mixed_loop fuel left i grn written streamed c)
          c
          (concat_upto (λ k. mixed_round grn written streamed (i + k)) left)
  unfolding mixed_loop
  mixed_loop-Traces zero i c small = (c, refl, unfold concat_upto in sym (append-nil c.trace))
  mixed_loop-Traces (suc left) i c small =
      rw (rounds_from (mixed_round grn written streamed) i left) (
        Traces-then (λ c'. inc_int i >>= λ i'. mixed_loop fuel left i' grn written streamed c') _ c
          (mixed_round grn written streamed i) _
          (Traces-then (stride_nt fuel (add64 streamed (i * grn * 64)) (grn * 64) 0 200 1) _ c
            (strided store_flush_line (add64 written (i * grn * 64)) (grn * 64) 0 1)
            (strided stream_line (add64 streamed (i * grn * 64)) (grn * 64) 0 1)
            (stride_storeclwb-Traces (add64 written (i * grn * 64)) (grn * 64) 0 200 1 fuel c fits
              (omega arith) (omega arith) enough delay_fuel (omega arith))
            (λ c1.
              stride_nt-Traces (add64 streamed (i * grn * 64)) (grn * 64) 0 200 1 fuel c1 fits
                (omega arith) (omega arith) enough delay_fuel (omega arith)))
          (λ c1.
            rw (inc_int-some i (omega arith)) (mixed_loop-Traces left (i + 1) c1 (omega arith))))

-- The events of the readings of the clock.
abbrev pub clock_events : List Event
clock_events = Event.rdtscp ∷ Event.lfence ∷ []

abbrev pub last_events : List Event
last_events = Event.mfence ∷ Event.rdtscp ∷ Event.lfence ∷ []

read_clock-Traces : (c : Cpu) → Traces (some (run read_clock c)) c clock_events
unfolding run read_clock
read_clock-Traces c = (run read_clock c, refl, append_assoc c.trace _ _)

finish-Traces : (c : Cpu) → Traces (some (run finish c)) c last_events
unfolding run finish
finish-Traces c =
    (run finish c, refl, append_assoc (c.trace ++ Event.mfence ∷ []) _ _ ∙ append_assoc c.trace _ _)

abbrev pub separate_events : (count written streamed : ℕ) → List Event
separate_events count written streamed =
    (((clock_events ++ strided store_flush_line written 64 64 count) ++ clock_events)
      ++ strided stream_line streamed 64 64 count)
    ++ last_events

pub task_separate-Traces :
    (fuel count written streamed : ℕ) (c : Cpu)
    → count < 2 ^ 31
    → count < fuel
    → 200 < fuel
    → Traces
        (task_separate fuel count written streamed c)
        c
        (separate_events count written streamed)
unfolding task_separate
task_separate-Traces fuel count written streamed c fits enough delay_fuel =
    Traces-then (λ t. some (run finish t)) _ c _ last_events
      (Traces-then (stride_nt fuel streamed 64 64 200 count) _ c _
        (strided stream_line streamed 64 64 count)
        (Traces-then (λ t. some (run read_clock t)) _ c _ clock_events
          (Traces-then
            (λ c'. empty_loop count 0 >>= λ _. stride_storeclwb fuel written 64 64 200 count c') _ c
            clock_events (strided store_flush_line written 64 64 count) (read_clock-Traces c)
            (λ c1. rw (empty_loop_ends count 0 (omega arith)) (
              stride_storeclwb-Traces written 64 64 200 count fuel c1 (omega arith) (omega arith)
                (omega arith) (omega arith) delay_fuel enough)))
          read_clock-Traces)
        (λ c1.
          stride_nt-Traces streamed 64 64 200 count fuel c1 (omega arith) (omega arith)
            (omega arith) (omega arith) delay_fuel enough))
      finish-Traces

abbrev pub mixed_events : (count grn written streamed : ℕ) → List Event
mixed_events count grn written streamed =
    ((clock_events ++ clock_events)
      ++ concat_upto (λ k. mixed_round grn written streamed (0 + k)) (count / grn))
    ++ last_events

pub task_mixed-Traces :
    (fuel count grn written streamed : ℕ) (c : Cpu)
    → grn * 64 ≤ 2 ^ 63 - 64
    → grn * 64 < fuel
    → 200 < fuel
    → count / grn < 2 ^ 31
    → Traces
        (task_mixed fuel count grn written streamed c)
        c
        (mixed_events count grn written streamed)
unfolding task_mixed
task_mixed-Traces fuel count grn written streamed c fits enough delay_fuel small =
    Traces-then (λ t. some (run finish t)) _ c _ last_events
      (Traces-then (mixed_loop fuel (count / grn) 0 grn written streamed) _ c _ _
        (Traces-then (λ t. some (run read_clock t)) _ c clock_events clock_events
          (read_clock-Traces c) read_clock-Traces)
        (λ c1.
          mixed_loop-Traces fuel grn written streamed fits enough delay_fuel (count / grn) 0 c1
            (omega arith)))
      finish-Traces

pub separate_events-NoFault :
    (count written streamed : ℕ)
    → IsAligned written
    → IsAligned streamed
    → NoFault (separate_events count written streamed)
separate_events-NoFault count written streamed h k =
    let first = strided store_flush_line written 64 64 count in
    let second = strided stream_line streamed 64 64 count in
    NoFault-append (((clock_events ++ first) ++ clock_events) ++ second) last_events
      (NoFault-append ((clock_events ++ first) ++ clock_events) second
        (NoFault-append (clock_events ++ first) clock_events
          (NoFault-append clock_events first (tt, (tt, tt))
            (strided-NoFault store_flush_line written 64 64 count store_flush_line-NoFault h refl))
          (tt, (tt, tt)))
        (strided-NoFault stream_line streamed 64 64 count stream_line-NoFault k refl))
      (tt, (tt, (tt, tt)))

chunk-IsAligned : (a i grn : ℕ) → IsAligned a → IsAligned (add64 a (i * grn * 64))
chunk-IsAligned a i grn h = omega arith

pub mixed_events-NoFault :
    (count grn written streamed : ℕ)
    → IsAligned written
    → IsAligned streamed
    → NoFault (mixed_events count grn written streamed)
mixed_events-NoFault count grn written streamed h k =
    let rounds = concat_upto (λ i. mixed_round grn written streamed (0 + i)) (count / grn) in
    NoFault-append ((clock_events ++ clock_events) ++ rounds) last_events
      (NoFault-append (clock_events ++ clock_events) rounds (tt, (tt, (tt, (tt, tt))))
        (NoFault-concat_upto (λ i. mixed_round grn written streamed (0 + i)) (count / grn)
          (λ i.
            NoFault-append
              (strided store_flush_line (add64 written ((0 + i) * grn * 64)) (grn * 64) 0 1)
              (strided stream_line (add64 streamed ((0 + i) * grn * 64)) (grn * 64) 0 1)
              (strided-NoFault store_flush_line (add64 written ((0 + i) * grn * 64)) (grn * 64) 0 1
                store_flush_line-NoFault (chunk-IsAligned written (0 + i) grn h) refl)
              (strided-NoFault stream_line (add64 streamed ((0 + i) * grn * 64)) (grn * 64) 0 1
                stream_line-NoFault (chunk-IsAligned streamed (0 + i) grn k) refl))))
      (tt, (tt, (tt, tt)))
