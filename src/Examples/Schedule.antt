-- ===== src/Examples/Schedule.antt =====
-- The theorems on the schedules of OptaneStudy/microbenchmark/rw_sep_multithread.cpp at concrete
-- inputs.
use rw_sep.Prelude.{
  ℕ, zero, suc, ◌+◌, ◌*◌, ◌<◌, ◌≡◌, refl, Option, none, some, List, [], ◌∷◌, ◌++◌, replicate, arith,
}
use rw_sep.Machine.{Event}
use rw_sep.Multithread.{numthread}
use rw_sep.Multithread.Schedule.{
  Tid, tid_w, tid_r, State, Turn, task_mixed, task_separate, same, run, start,
}
use rw_sep.Multithread.Lives.{own}
use rw_sep.Multithread.Barrier.{Precedes}
use rw_sep.Multithread.Tasks.{IsTask, joined_all, separate-Precedes}
use rw_sep.Multithread.Progress.{task_completes}

-- A line stored and written back, and one that is streamed.
abbrev lines : Tid → List Event
lines (tid_w i) = Event.store (4096 + 64 * i) 64 ∷ Event.clwb (4096 + 64 * i) ∷ []
lines (tid_r i) = Event.nt_store (8192 + 64 * i) 64 ∷ []

abbrev turns_of : (i left : ℕ) → List Turn
turns_of i zero = []
turns_of i (suc left) =
    Turn.thread (Tid.tid_r i)
    ∷ Turn.thread (Tid.tid_w i)
    ∷ Turn.thread (Tid.tid_w i)
    ∷ turns_of (i + 1) left

-- All threads are created, run one after another, and are joined.
abbrev one_by_one : List Turn
one_by_one = replicate 16 Turn.main_thread ++ (turns_of 0 8 ++ replicate 16 Turn.main_thread)

abbrev state_of : Option State → State
state_of none = start []
state_of (some s) = s

abbrev ended : State
ended = state_of (run lines one_by_one (start (task_mixed numthread)))

joined_all_example :
    (own (Tid.tid_w 3) ended.log ≡ lines (Tid.tid_w 3))
    × (own (Tid.tid_r 3) ended.log ≡ lines (Tid.tid_r 3))
unfolding run same task_mixed
joined_all_example =
    joined_all lines (task_mixed numthread) one_by_one ended 3 IsTask.mixed refl refl (omega arith)

abbrev turns_of_writers : (i left : ℕ) → List Turn
turns_of_writers i zero = []
turns_of_writers i (suc left) =
    Turn.thread (Tid.tid_w i) ∷ Turn.thread (Tid.tid_w i) ∷ turns_of_writers (i + 1) left

-- All writers run and are joined, and then the first reader begins.
abbrev writers_first : List Turn
writers_first =
    replicate 8 Turn.main_thread
    ++ (turns_of_writers 0 8 ++ (replicate 9 Turn.main_thread ++ Turn.thread (Tid.tid_r 0) ∷ []))

abbrev half_way : State
half_way = state_of (run lines writers_first (start (task_separate numthread)))

separate-Precedes_example : Precedes (Tid.tid_w 5) (Tid.tid_r 0) half_way.log
unfolding run same task_separate
separate-Precedes_example =
    separate-Precedes lines writers_first half_way 5 0 refl (omega arith) (omega arith)

task_completes_example :
    (more : List Turn) × (s' : State) × (run lines
        (writers_first ++ more)
        (start (task_separate numthread))
      ≡ some s')
    × (s'.program ≡ [])
    × ((i : ℕ)
        → i < numthread
        → (own (Tid.tid_w i) s'.log ≡ lines (Tid.tid_w i))
          × (own (Tid.tid_r i) s'.log ≡ lines (Tid.tid_r i)))
unfolding run same task_separate
task_completes_example =
    task_completes lines (task_separate numthread) writers_first half_way IsTask.separate refl
