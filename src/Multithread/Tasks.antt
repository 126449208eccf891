-- ===== src/Multithread/Tasks.antt =====
-- What the tasks of OptaneStudy/microbenchmark/rw_sep_multithread.cpp guarantee of their threads.
use mathlib.Core.Path.{subst}
use rw_sep.Prelude.{
  ℕ, zero, suc, ◌<◌, ◌≡◌, refl, sym, ap, ◌∙◌, Bool, true, false, ◌&&◌, Option, none, some, List, [],
  ◌∷◌, ◌++◌, append-nil, arith,
}
use rw_sep.Prelude.Loops.{◌>>=◌}
use rw_sep.Machine.{Event}
use rw_sep.Multithread.{numthread}
use rw_sep.Multithread.Schedule.{
  Tid, tid_w, tid_r, Op, State, Turn, main_thread, thread, same, update, task_mixed, task_separate,
  main_step, thread_step, step, run, start,
}
use rw_sep.Multithread.Lives.{
  fresh, running, own, Every, InState, is_fresh, is_running, is_over, run_keeps, step-InState,
}
use rw_sep.Multithread.Barrier.{join_first, Precedes, Barred, before, after, step-Barred}

-- A test at every number below `n`.
abbrev below : ℕ → (ℕ → Bool) → Bool
below zero p = true
below (suc n) p = p n && below n p

below_sound : (n : ℕ) (p : ℕ → Bool) (i : ℕ) → below n p ≡ true → i < n → p i ≡ true
below_sound zero p i h lt = absurd (omega arith)
below_sound (suc n) p i h lt = ground (arith, below_sound n p i)

-- The programs of the three tasks.
pub data IsTask : List Op → Type 0 where
  mixed : IsTask (task_mixed numthread)
  separate : IsTask (task_separate numthread)

both_fresh : List Op → ℕ → Bool
both_fresh p i = fresh (Tid.tid_w i) p && fresh (Tid.tid_r i) p

mixed_fresh : below numthread (both_fresh (task_mixed numthread)) ≡ true
unfolding both_fresh task_mixed same
mixed_fresh = refl

separate_fresh : below numthread (both_fresh (task_separate numthread)) ≡ true
unfolding both_fresh task_separate same
separate_fresh = refl

barred_at : ℕ → ℕ → Bool
barred_at i j = join_first (Tid.tid_w i) (Tid.tid_r j) (task_separate numthread)

separate_barred : below numthread (λ i. below numthread (barred_at i)) ≡ true
unfolding barred_at task_separate same
separate_barred = refl

both : (b c : Bool) → (b && c) ≡ true → (b ≡ true) × (c ≡ true)
both true c h = (refl, h)
both false c h = absurd (cc h)

fresh_in :
    (p : List Op) (i : ℕ)
    → IsTask p
    → i < numthread
    → (fresh (Tid.tid_w i) p ≡ true) × (fresh (Tid.tid_r i) p ≡ true)
unfolding both_fresh
fresh_in p i mixed lt =
    both _ _ (below_sound numthread (both_fresh (task_mixed numthread)) i mixed_fresh lt)
fresh_in p i separate lt =
    both _ _ (below_sound numthread (both_fresh (task_separate numthread)) i separate_fresh lt)

-- At the end of the program only the lives that are over are left.
ended-InState :
    (work : Tid → List Event) (t : Tid) (s : State)
    → s.program ≡ []
    → InState work t s
    → own t s.log ≡ work t
ended-InState work t s e (is_fresh f r o) = absurd (cc (ap (fresh t) e, f))
ended-InState work t s e (is_running f k) = absurd (cc (ap (running t) e, f))
ended-InState work t s e (is_over f r o) = o

reached : (P : State → Type 0) (m : Option State) (s : State) → Every P m → m ≡ some s → P s
reached P none s h e = absurd (cc e)
reached P (some s') s h e = let same_state : s' ≡ s = cc e in subst P same_state h

-- However the threads of a task are scheduled: when the main thread has gone through the task, each
-- of the eight writers and eight readers has made all its accesses, in its order and no other.
pub joined_all :
    (work : Tid → List Event) (p : List Op) (turns : List Turn) (s : State) (i : ℕ)
    → IsTask p
    → run work turns (start p) ≡ some s
    → s.program ≡ []
    → i < numthread
    → (own (Tid.tid_w i) s.log ≡ work (Tid.tid_w i))
      × (own (Tid.tid_r i) s.log ≡ work (Tid.tid_r i))
joined_all work p turns s i task runs ends lt =
    let f = fresh_in p i task lt in
    let ended = λ (t : Tid) (h : fresh t p ≡ true). ended-InState work t s ends (
      reached (InState work t) (run work turns (start p)) s
        (run_keeps work (InState work t) (step-InState work t) turns (start p)
          (is_fresh h refl refl))
        runs) in
    (ended (Tid.tid_w i) f.0, ended (Tid.tid_r i) f.1)

Barred-Precedes : (t u : Tid) (s : State) → Barred t u s → Precedes t u s.log
Barred-Precedes t u s (before f r o) = record {
  early = s.log;
  late = [];
  split = sym (append-nil s.log);
  not_yet = o;
  no_more = refl;
}
Barred-Precedes t u s (after f r o) = o

-- However the threads of task 3 are scheduled, and however far they have got: all accesses that any
-- of the eight writers has made stand before those of any of the eight readers.
pub separate-Precedes :
    (work : Tid → List Event) (turns : List Turn) (s : State) (i j : ℕ)
    → run work turns (start (task_separate numthread)) ≡ some s
    → i < numthread
    → j < numthread
    → Precedes (Tid.tid_w i) (Tid.tid_r j) s.log
unfolding barred_at
separate-Precedes work turns s i j runs lt lt' =
    let t = Tid.tid_w i in
    let u = Tid.tid_r j in
    let first =
      below_sound numthread (barred_at i) j
        (below_sound numthread (λ i. below numthread (barred_at i)) i separate_barred lt) lt' in
    Barred-Precedes t u s (
      reached (Barred t u) (run work turns (start (task_separate numthread))) s
        (run_keeps work (Barred t u) (step-Barred work t u) turns (start (task_separate numthread))
          (before first refl refl))
        runs)

pub thread_step_act :
    (work : Tid → List Event) (x : Tid) (e : Event) (es : List Event) (s : State)
    → s.rem x ≡ e ∷ es
    → step work (thread x) s
      ≡ some (record s { rem = update s.rem x es; log = s.log ++ (x, e) ∷ [] })
unfolding step thread_step
thread_step_act work x e es s h = rw (h, thread_step) refl

-- The first reader's access before the first writer's is not an order in which the writer precedes.
not-Precedes :
    (e f : Event) → ¬ Precedes (Tid.tid_w 0) (Tid.tid_r 0) ((tid_r 0, f) ∷ (tid_w 0, e) ∷ [])
unfolding same
not-Precedes e f p = on p.early p.late p.split p.not_yet p.no_more
  where
    on :
        (early late : List (Tid × Event))
        → (tid_r 0, f) ∷ (tid_w 0, e) ∷ [] ≡ early ++ late
        → own (Tid.tid_r 0) early ≡ []
        → own (Tid.tid_w 0) late ≡ []
        → ⊥
    on [] late split n m = cc (ap (own (Tid.tid_w 0)) split, m)
    on (x ∷ early) late split n m =
        let first : (tid_r 0, f) ≡ x = cc split in
        cc (ap (λ (y : Tid × Event). own (Tid.tid_r 0) (y ∷ early)) first, n)

abbrev without_two : List Op → List Op
without_two [] = []
without_two (_ ∷ []) = []
without_two (_ ∷ _ ∷ p) = p

-- In tasks 1 and 2, where the first writer and the first reader make accesses at all, there is a
-- schedule in which the reader makes one before the writer's first.
pub mixed_overtakes :
    (work : Tid → List Event) (e f : Event) (es fs : List Event)
    → work (Tid.tid_w 0) ≡ e ∷ es
    → work (Tid.tid_r 0) ≡ f ∷ fs
    → (turns : List Turn) × (s : State) × (run work turns (start (task_mixed numthread)) ≡ some s)
      × ¬ Precedes (Tid.tid_w 0) (Tid.tid_r 0) s.log
unfolding run main_step task_mixed same
mixed_overtakes work e f es fs writes reads =
    let created : State = record {
      program = without_two (task_mixed numthread);
      rem =
          update (update (λ t. []) (Tid.tid_w 0) (work (Tid.tid_w 0))) (Tid.tid_r 0)
            (work (Tid.tid_r 0));
      log = [];
    } in
    let overtaken : State = record created {
      rem = update created.rem (Tid.tid_r 0) fs;
      log = (tid_r 0, f) ∷ [];
    } in
    (
      main_thread ∷ main_thread ∷ thread (Tid.tid_r 0) ∷ thread (Tid.tid_w 0) ∷ [],
      record overtaken {
        rem = update overtaken.rem (Tid.tid_w 0) es;
        log = (tid_r 0, f) ∷ (tid_w 0, e) ∷ [];
      },
      ap (λ m. m >>= run work (thread (Tid.tid_w 0) ∷ []))
            (thread_step_act work (Tid.tid_r 0) f fs created reads)
          ∙ ap (λ m. m >>= run work []) (thread_step_act work (Tid.tid_w 0) e es overtaken writes),
      not-Precedes e f,
    )
