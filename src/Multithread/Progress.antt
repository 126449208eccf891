-- ===== src/Multithread/Progress.antt =====
-- No schedule of OptaneStudy/microbenchmark/rw_sep_multithread.cpp gets stuck: each can be gone on
-- with until the main thread is done.
use mathlib.Core.Path.{subst}
use rw_sep.Prelude.{ℕ, ◌<◌, ◌≡◌, refl, sym, ap, ◌∙◌, Option, none, some, List, [], ◌∷◌, ◌++◌}
use rw_sep.Prelude.Loops.{◌>>=◌}
use rw_sep.Machine.{Event}
use rw_sep.Multithread.{numthread}
use rw_sep.Multithread.Schedule.{
  Tid, Op, pthread_create, pthread_join, State, Turn, update, main_step, step, run, start,
}
use rw_sep.Multithread.Lives.{own, same_refl}
use rw_sep.Multithread.Tasks.{IsTask, thread_step_act, joined_all}

module _ (work : Tid → List Event) where
  run-append : (a b : List Turn) (s : State) → run work (a ++ b) s ≡ (run work a s >>= run work b)
  unfolding run
  run-append [] b s = refl
  run-append (t ∷ a) b s = on (λ s'. run-append a b s') (step work t s)
    where
      on :
          ((s' : State) → run work (a ++ b) s' ≡ (run work a s' >>= run work b))
          → (m : Option State) → (m >>= run work (a ++ b)) ≡ ((m >>= run work a) >>= run work b)
      on rest none = refl
      on rest (some s') = rest s'

  -- States that a schedule leads to, from one to another.
  record Leads (s : State) (P : State → Type 0) : Type 0 where
    turns : List Turn
    to : State
    runs : run work turns s ≡ some to
    there : P to

  Leads-then :
      (s : State) (P Q : State → Type 0)
      → Leads s P
      → ((s' : State) → P s' → Leads s' Q)
      → Leads s Q
  Leads-then s P Q l next =
      let m = next l.to l.there in
      record {
        turns = l.turns ++ m.turns;
        to = m.to;
        runs = run-append l.turns m.turns s ∙ ap (λ o. o >>= run work m.turns) l.runs ∙ m.runs;
        there = m.there;
      }

  Leads-one :
      (t : Turn) (s s' : State) (P : State → Type 0) → step work t s ≡ some s' → P s' → Leads s P
  unfolding run
  Leads-one t s s' P e h = record {
    turns = t ∷ [];
    to = s';
    runs = ap (λ m. m >>= run work []) e;
    there = h;
  }

  -- A thread can go on to its end.
  drain :
      (x : Tid) (es : List Event) (s : State)
      → s.rem x ≡ es
      → Leads s (λ s'. (s'.rem x ≡ []) × (s'.program ≡ s.program))
  unfolding run
  drain x [] s h = record { turns = []; to = s; runs = refl; there = (h, refl) }
  drain x (e ∷ es) s h =
      let s' : State = record s { rem = update s.rem x es; log = s.log ++ (x, e) ∷ [] } in
      let left : s'.rem x ≡ es = rw (same_refl x) refl in
      Leads-then s (λ t. t ≡ s') (λ t. (t.rem x ≡ []) × (t.program ≡ s.program))
        (Leads-one (Turn.thread x) s s' (λ t. t ≡ s') (thread_step_act work x e es s h) refl)
        (λ t same_state.
          subst (λ (u : State). Leads u (λ v. (v.rem x ≡ []) × (v.program ≡ s.program)))
            (sym same_state) (drain x es s' left))

  join_step :
      (x : Tid) (p : List Op) (rem : Tid → List Event) (log : List (Tid × Event))
      → rem x ≡ []
      → step work Turn.main_thread (record { program = pthread_join x ∷ p; rem = rem; log = log })
        ≡ some (record { program = p; rem = rem; log = log })
  unfolding step main_step
  join_step x p rem log e = rw (e, main_step) refl

  create_step :
      (x : Tid) (p : List Op) (rem : Tid → List Event) (log : List (Tid × Event))
      → step work Turn.main_thread (record { program = pthread_create x ∷ p; rem = rem; log = log })
        ≡ some (record { program = p; rem = update rem x (work x); log = log })
  unfolding step main_step
  create_step x p rem log = refl

  main_ends :
      (p : List Op) (rem : Tid → List Event) (log : List (Tid × Event))
      → Leads (record { program = p; rem = rem; log = log }) (λ s. s.program ≡ [])
  main_ends [] rem log = record {
    turns = [];
    to = record { program = []; rem = rem; log = log };
    runs = unfold run in refl;
    there = refl;
  }
  main_ends (pthread_create x ∷ p) rem log =
      let s' : State = record { program = p; rem = update rem x (work x); log = log } in
      Leads-then (record { program = pthread_create x ∷ p; rem = rem; log = log }) (λ t. t ≡ s')
        (λ t. t.program ≡ [])
        (Leads-one Turn.main_thread
          (record { program = pthread_create x ∷ p; rem = rem; log = log }) s' (λ t. t ≡ s')
          (create_step x p rem log) refl)
        (λ t same_state.
          subst (λ (u : State). Leads u (λ v. v.program ≡ [])) (sym same_state)
            (main_ends p (update rem x (work x)) log))
  main_ends (pthread_join x ∷ p) rem log =
      Leads-then (record { program = pthread_join x ∷ p; rem = rem; log = log })
        (λ t. (t.rem x ≡ []) × (t.program ≡ pthread_join x ∷ p)) (λ t. t.program ≡ [])
        (drain x (rem x) (record { program = pthread_join x ∷ p; rem = rem; log = log }) refl)
        (λ t (done, same_program).
          Leads-then t (λ u. u ≡ record t { program = p }) (λ u. u.program ≡ [])
            (Leads-one Turn.main_thread t (record t { program = p })
              (λ u. u ≡ record t { program = p })
              (ap (λ (q : List Op). step work Turn.main_thread (record t { program = q }))
                  same_program
                ∙ join_step x p t.rem t.log done)
              refl)
            (λ u same_state.
              subst (λ (v : State). Leads v (λ w. w.program ≡ [])) (sym same_state)
                (main_ends p t.rem t.log)))

  -- However the threads of a task have been scheduled so far: the schedule can be gone on with so
  -- that the main thread comes to the end of the task, and then each of the eight writers and eight
  -- readers has made all its accesses.
  pub task_completes :
      (p : List Op) (turns : List Turn) (s : State)
      → IsTask p
      → run work turns (start p) ≡ some s
      → (more : List Turn) × (s' : State) × (run work (turns ++ more) (start p) ≡ some s')
        × (s'.program ≡ [])
        × ((i : ℕ)
            → i < numthread
            → (own (Tid.tid_w i) s'.log ≡ work (Tid.tid_w i))
              × (own (Tid.tid_r i) s'.log ≡ work (Tid.tid_r i)))
  task_completes p turns s task runs =
      let l = main_ends s.program s.rem s.log in
      let whole : run work (turns ++ l.turns) (start p) ≡ some l.to =
        run-append turns l.turns (start p) ∙ ap (λ o. o >>= run work l.turns) runs ∙ l.runs in
      (
        l.turns,
        l.to,
        whole,
        l.there,
        λ i lt. joined_all work p (turns ++ l.turns) l.to i task whole l.there lt,
      )
