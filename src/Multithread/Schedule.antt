-- ===== src/Multithread/Schedule.antt =====
-- How OptaneStudy/microbenchmark/rw_sep_multithread.cpp starts and joins its threads, as a schedule
-- of steps of the main thread and of the threads. The accesses that a thread makes are a parameter,
-- `work`. Creating a thread succeeds; the clock and the printing are left out.
use rw_sep.Prelude.{
  ℕ, zero, suc, ◌+◌, Bool, false, Option, none, some, List, [], ◌∷◌, ◌++◌, ◌==◌, if◌then◌else◌,
}
use rw_sep.Prelude.Loops.{◌>>=◌}
use rw_sep.Machine.{Event}

-- The threads of `tid_w[i]` and `tid_r[i]`.
pub data Tid : Type 0 where
  tid_w tid_r : ℕ → Tid

unfoldable pub same : Tid → Tid → Bool
same (tid_w i) (tid_w j) = i == j
same (tid_r i) (tid_r j) = i == j
same (tid_w i) (tid_r j) = false
same (tid_r i) (tid_w j) = false

-- What the main thread does.
pub data Op : Type 0 where
  pthread_create pthread_join : Tid → Op

-- The loops over i, …, from `i` on, with `left` of them to go.
unfoldable pub each : (ℕ → List Op) → (i left : ℕ) → List Op
each body i zero = []
each body i (suc left) = body i ++ each body (i + 1) left

-- Tasks 1 and 2, which differ in the buffers of the readers.
unfoldable pub task_mixed : (numthread : ℕ) → List Op
unfolding each
task_mixed numthread =
    each (λ i. Op.pthread_create (Tid.tid_w i) ∷ Op.pthread_create (Tid.tid_r i) ∷ []) 0 numthread
    ++ each (λ i. Op.pthread_join (Tid.tid_r i) ∷ Op.pthread_join (Tid.tid_w i) ∷ []) 0 numthread

-- Task 3.
unfoldable pub task_separate : (numthread : ℕ) → List Op
unfolding each
task_separate numthread =
    each (λ i. Op.pthread_create (Tid.tid_w i) ∷ []) 0 numthread
    ++ (each (λ i. Op.pthread_join (Tid.tid_w i) ∷ []) 0 numthread
        ++ (each (λ i. Op.pthread_create (Tid.tid_r i) ∷ []) 0 numthread
            ++ each (λ i. Op.pthread_join (Tid.tid_r i) ∷ []) 0 numthread))

-- What the main thread has still to do, what each thread has, and the accesses that were made.
pub record State : Type 0 where
  pub program : List Op
  pub rem : Tid → List Event
  pub log : List (Tid × Event)

abbrev pub update : (Tid → List Event) → Tid → List Event → Tid → List Event
update rem t es u = if same t u then es else rem u

-- Whose step comes next.
pub data Turn : Type 0 where
  main_thread : Turn
  thread : Tid → Turn

module _ (work : Tid → List Event) where
  -- `pthread_join` waits for the thread's end.
  unfoldable pub main_step :
      List Op → (rem : Tid → List Event) → (log : List (Tid × Event)) → Option State
  main_step [] rem log = none
  main_step (pthread_create t ∷ program) rem log =
      some (record { program = program; rem = update rem t (work t); log = log })
  main_step (pthread_join t ∷ program) rem log = elim (rem t) [
    | [] ↦ some (record { program = program; rem = rem; log = log })
    | _ ∷ _ ↦ none
  ]

  unfoldable pub thread_step : Tid → State → Option State
  thread_step t s = elim (s.rem t) [
    | [] ↦ none
    | e ∷ es ↦ some (record s { rem = update s.rem t es; log = s.log ++ (t, e) ∷ [] })
  ]

  -- `none` where the turn is that of a thread that cannot go on.
  unfoldable pub step : Turn → State → Option State
  unfolding main_step thread_step
  step main_thread s = main_step s.program s.rem s.log
  step (thread t) s = thread_step t s

  unfoldable pub run : List Turn → State → Option State
  unfolding step
  run [] s = some s
  run (t ∷ turns) s = step t s >>= run turns

abbrev pub start : List Op → State
start program = record { program = program; rem = λ t. []; log = [] }
