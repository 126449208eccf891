-- ===== src/Multithread/Lives.antt =====
-- What a thread of OptaneStudy/microbenchmark/rw_sep_multithread.cpp has done when its life is
-- over.
use rw_sep.Prelude.{
  ◌≡◌, refl, sym, ap, ◌∙◌, Bool, true, false, not, ◌&&◌, Bool-cases, inl, inr, Option, none, some,
  List, [], ◌∷◌, ◌++◌, append_assoc, append-nil, if◌then◌else◌, arith,
}
use rw_sep.Prelude.Loops.{◌>>=◌}
use rw_sep.Machine.{Event}
use rw_sep.Multithread.Schedule.{
  Tid, tid_w, tid_r, Op, pthread_create, pthread_join, State, Turn, main_thread, thread, same,
  update, main_step, thread_step, step, run,
}

pub same-eq : (t u : Tid) → same t u ≡ true → t ≡ u
unfolding same
same-eq (tid_w i) (tid_w j) h = let e : i ≡ j = ground arith in ap Tid.tid_w e
same-eq (tid_r i) (tid_r j) h = let e : i ≡ j = ground arith in ap Tid.tid_r e
same-eq (tid_w i) (tid_r j) h = absurd (cc h)
same-eq (tid_r i) (tid_w j) h = absurd (cc h)

pub same_refl : (t : Tid) → same t t ≡ true
unfolding same
same_refl (tid_w i) = ground arith
same_refl (tid_r i) = ground arith

-- A program that does not name a thread, that joins it once, and that creates it once and then
-- joins it once.
abbrev pub over : Tid → List Op → Bool
over t [] = true
over t (pthread_create x ∷ p) = not (same x t) && over t p
over t (pthread_join x ∷ p) = not (same x t) && over t p

abbrev pub running : Tid → List Op → Bool
running t [] = false
running t (pthread_create x ∷ p) = not (same x t) && running t p
running t (pthread_join x ∷ p) = if same x t then over t p else running t p

abbrev pub fresh : Tid → List Op → Bool
fresh t [] = false
fresh t (pthread_create x ∷ p) = if same x t then running t p else fresh t p
fresh t (pthread_join x ∷ p) = not (same x t) && fresh t p

-- The accesses of one thread.
abbrev pub own : Tid → List (Tid × Event) → List Event
own t [] = []
own t ((x, e) ∷ log) = if same x t then e ∷ own t log else own t log

pub own-append :
    (t : Tid) (log more : List (Tid × Event)) → own t (log ++ more) ≡ own t log ++ own t more
own-append t [] more = refl
own-append t ((x, e) ∷ log) more = elim (Bool-cases (same x t)) [
  | inl h ↦ rw h (ap (e ∷◌) (own-append t log more))
  | inr h ↦ rw h (own-append t log more)
]

-- The life of a thread in a state: not created, created, or joined.
pub data InState (work : Tid → List Event) (t : Tid) (s : State) : Type 0 where
  is_fresh : fresh t s.program ≡ true → s.rem t ≡ [] → own t s.log ≡ [] → InState work t s
  is_running : running t s.program ≡ true → own t s.log ++ s.rem t ≡ work t → InState work t s
  is_over : over t s.program ≡ true → s.rem t ≡ [] → own t s.log ≡ work t → InState work t s

pub neither : (b c : Bool) → (not b && c) ≡ true → (b ≡ false) × (c ≡ true)
neither true c h = absurd (cc h)
neither false c h = (refl, h)

-- A predicate on the state that a step leads to, where it leads to one.
abbrev pub Every : (State → Type 0) → Option State → Type 0
Every P none = Unit
Every P (some s) = P s

-- What every step keeps, a schedule keeps.
pub run_keeps :
    (work : Tid → List Event) (P : State → Type 0)
    → ((turn : Turn) (s : State) → P s → Every P (step work turn s))
    → (turns : List Turn) (s : State) → P s
    → Every P (run work turns s)
unfolding run
run_keeps work P keep [] s h = h
run_keeps work P keep (turn ∷ turns) s h =
    on (λ s' k. run_keeps work P keep turns s' k) (step work turn s) (keep turn s h)
  where
    on :
        ((s' : State) → P s' → Every P (run work turns s'))
        → (m : Option State) → Every P m
        → Every P (m >>= run work turns)
    on rest none k = tt
    on rest (some s') k = rest s' k

module _ (work : Tid → List Event) (t : Tid) where
  create-InState :
      (x : Tid) (p : List Op) (rem : Tid → List Event) (log : List (Tid × Event))
      → InState work t (record { program = pthread_create x ∷ p; rem = rem; log = log })
      → InState work t (record { program = p; rem = update rem x (work x); log = log })
  create-InState x p rem log (is_fresh f r o) = elim (Bool-cases (same x t)) [
    | inl h ↦ is_running (rw h at f) (rw (h, o) (ap work (same-eq x t h)))
    | inr h ↦ is_fresh (rw h at f) (rw h r) o
  ]
  create-InState x p rem log (is_running f e) =
      let (h, k) = neither (same x t) (running t p) f in is_running k (rw h e)
  create-InState x p rem log (is_over f r o) =
      let (h, k) = neither (same x t) (over t p) f in is_over k (rw h r) o

  join-InState :
      (x : Tid) (p : List Op) (rem : Tid → List Event) (log : List (Tid × Event))
      → rem x ≡ []
      → InState work t (record { program = pthread_join x ∷ p; rem = rem; log = log })
      → InState work t (record { program = p; rem = rem; log = log })
  join-InState x p rem log done (is_fresh f r o) = is_fresh (neither (same x t) (fresh t p) f).1 r o
  join-InState x p rem log done (is_running f e) = elim (Bool-cases (same x t)) [
    | inl h ↦
        let ended : rem t ≡ [] = ap rem (sym (same-eq x t h)) ∙ done in
        is_over (rw h at f) ended
          (sym (append-nil (own t log)) ∙ ap (own t log ++◌) (sym ended) ∙ e)
    | inr h ↦ is_running (rw h at f) e
  ]
  join-InState x p rem log done (is_over f r o) = is_over (neither (same x t) (over t p) f).1 r o

  -- An access by some thread.
  act-InState :
      (x : Tid) (e : Event) (es : List Event) (s : State)
      → s.rem x ≡ e ∷ es
      → InState work t s
      → InState work t (record s { rem = update s.rem x es; log = s.log ++ (x, e) ∷ [] })
  act-InState x e es s some_left h = elim (Bool-cases (same x t)) [
    | inl me ↦ mine (same-eq x t me) me h
    | inr other ↦ others other h
  ]
    where
      kept : same x t ≡ false → own t (s.log ++ (x, e) ∷ []) ≡ own t s.log
      kept other = own-append t s.log ((x, e) ∷ []) ∙ rw other (append-nil (own t s.log))

      others :
          same x t ≡ false
          → InState work t s
          → InState work t (record s { rem = update s.rem x es; log = s.log ++ (x, e) ∷ [] })
      others other (is_fresh f r o) = is_fresh f (rw other r) (kept other ∙ o)
      others other (is_running f k) = is_running f (rw other (ap (◌++ s.rem t) (kept other) ∙ k))
      others other (is_over f r o) = is_over f (rw other r) (kept other ∙ o)

      mine :
          x ≡ t
          → same x t ≡ true
          → InState work t s
          → InState work t (record s { rem = update s.rem x es; log = s.log ++ (x, e) ∷ [] })
      mine same_one me (is_fresh f r o) = absurd (cc (some_left, ap s.rem same_one, r))
      mine same_one me (is_over f r o) = absurd (cc (some_left, ap s.rem same_one, r))
      mine same_one me (is_running f k) =
          let was : s.rem t ≡ e ∷ es = sym (ap s.rem same_one) ∙ some_left in
          is_running f (
            rw me (
              ap (◌++ es) (own-append t s.log ((x, e) ∷ []))
              ∙ rw me
                  (append_assoc (own t s.log) (e ∷ []) es ∙ ap (own t s.log ++◌) (sym was) ∙ k)))

  main_step-InState :
      (p : List Op) (rem : Tid → List Event) (log : List (Tid × Event))
      → InState work t (record { program = p; rem = rem; log = log })
      → Every (InState work t) (main_step work p rem log)
  unfolding main_step
  main_step-InState [] rem log h = tt
  main_step-InState (pthread_create x ∷ p) rem log h = create-InState x p rem log h
  main_step-InState (pthread_join x ∷ p) rem log h = on (rem x) refl
    where
      on :
          (es : List Event)
          → rem x ≡ es
          → Every (InState work t) (main_step work (pthread_join x ∷ p) rem log)
      on [] e = rw (e, main_step) (join-InState x p rem log e h)
      on (_ ∷ _) e = rw (e, main_step) tt

  pub step-InState :
      (turn : Turn) (s : State) → InState work t s → Every (InState work t) (step work turn s)
  unfolding step thread_step
  step-InState main_thread s h = main_step-InState s.program s.rem s.log h
  step-InState (thread x) s h = on (s.rem x) refl
    where
      on : (es : List Event) → s.rem x ≡ es → Every (InState work t) (thread_step work x s)
      on [] e = rw (e, thread_step) tt
      on (e ∷ es) k = rw (k, thread_step) (act-InState x e es s k h)
