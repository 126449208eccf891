-- ===== src/Multithread/Barrier.antt =====
-- Threads of OptaneStudy/microbenchmark/rw_sep_multithread.cpp of which one is joined before the
-- other is created.
use rw_sep.Prelude.{
  ◌≡◌, refl, sym, ap, ◌∙◌, Bool, true, false, not, ◌&&◌, Bool-cases, inl, inr, List, [], ◌∷◌, ◌++◌,
  append_assoc, append-nil, if◌then◌else◌,
}
use rw_sep.Machine.{Event}
use rw_sep.Multithread.Schedule.{
  Tid, Op, pthread_create, pthread_join, State, Turn, main_thread, thread, same, update, main_step,
  thread_step, step,
}
use rw_sep.Multithread.Lives.{same-eq, over, own, own-append, neither, Every}

-- A program that joins `t`, for the last time that it names it, before it creates `u`.
abbrev pub join_first : (t u : Tid) → List Op → Bool
join_first t u [] = false
join_first t u (pthread_create x ∷ p) = not (same x u) && join_first t u p
join_first t u (pthread_join x ∷ p) = if same x t then over t p else join_first t u p

-- The accesses of `t` stand before those of `u`.
pub record Precedes (t u : Tid) (log : List (Tid × Event)) : Type 0 where
  pub early : List (Tid × Event)
  pub late : List (Tid × Event)
  pub split : log ≡ early ++ late
  pub not_yet : own u early ≡ []
  pub no_more : own t late ≡ []

-- Before and after the join.
pub data Barred (t u : Tid) (s : State) : Type 0 where
  before : join_first t u s.program ≡ true → s.rem u ≡ [] → own u s.log ≡ [] → Barred t u s
  after : over t s.program ≡ true → s.rem t ≡ [] → Precedes t u s.log → Barred t u s

module _ (work : Tid → List Event) (t u : Tid) where
  create-Barred :
      (x : Tid) (p : List Op) (rem : Tid → List Event) (log : List (Tid × Event))
      → Barred t u (record { program = pthread_create x ∷ p; rem = rem; log = log })
      → Barred t u (record { program = p; rem = update rem x (work x); log = log })
  create-Barred x p rem log (before f r o) =
      let (h, k) = neither (same x u) (join_first t u p) f in before k (rw h r) o
  create-Barred x p rem log (after f r o) =
      let (h, k) = neither (same x t) (over t p) f in after k (rw h r) o

  join-Barred :
      (x : Tid) (p : List Op) (rem : Tid → List Event) (log : List (Tid × Event))
      → rem x ≡ []
      → Barred t u (record { program = pthread_join x ∷ p; rem = rem; log = log })
      → Barred t u (record { program = p; rem = rem; log = log })
  join-Barred x p rem log done (before f r o) = elim (Bool-cases (same x t)) [
    | inl h ↦ after (rw h at f) (ap rem (sym (same-eq x t h)) ∙ done) (record {
      early = log;
      late = [];
      split = sym (append-nil log);
      not_yet = o;
      no_more = refl;
    })
    | inr h ↦ before (rw h at f) r o
  ]
  join-Barred x p rem log done (after f r o) = after (neither (same x t) (over t p) f).1 r o

  own-other :
      (v x : Tid) (e : Event) (log : List (Tid × Event))
      → same x v ≡ false
      → own v (log ++ (x, e) ∷ []) ≡ own v log
  own-other v x e log other = own-append v log ((x, e) ∷ []) ∙ rw other (append-nil (own v log))

  act-Barred :
      (x : Tid) (e : Event) (es : List Event) (s : State)
      → s.rem x ≡ e ∷ es
      → Barred t u s
      → Barred t u (record s { rem = update s.rem x es; log = s.log ++ (x, e) ∷ [] })
  act-Barred x e es s some_left (before f r o) = elim (Bool-cases (same x u)) [
    | inl h ↦ absurd (cc (some_left, ap s.rem (same-eq x u h), r))
    | inr h ↦ before f (rw h r) (own-other u x e s.log h ∙ o)
  ]
  act-Barred x e es s some_left (after f r o) = elim (Bool-cases (same x t)) [
    | inl h ↦ absurd (cc (some_left, ap s.rem (same-eq x t h), r))
    | inr h ↦ after f (rw h r) (record {
      early = o.early;
      late = o.late ++ (x, e) ∷ [];
      split = ap (◌++ (x, e) ∷ []) o.split ∙ append_assoc o.early o.late ((x, e) ∷ []);
      not_yet = o.not_yet;
      no_more = own-other t x e o.late h ∙ o.no_more;
    })
  ]

  main_step-Barred :
      (p : List Op) (rem : Tid → List Event) (log : List (Tid × Event))
      → Barred t u (record { program = p; rem = rem; log = log })
      → Every (Barred t u) (main_step work p rem log)
  unfolding main_step
  main_step-Barred [] rem log h = tt
  main_step-Barred (pthread_create x ∷ p) rem log h = create-Barred x p rem log h
  main_step-Barred (pthread_join x ∷ p) rem log h = on (rem x) refl
    where
      on :
          (es : List Event)
          → rem x ≡ es
          → Every (Barred t u) (main_step work (pthread_join x ∷ p) rem log)
      on [] e = rw (e, main_step) (join-Barred x p rem log e h)
      on (_ ∷ _) e = rw (e, main_step) tt

  pub step-Barred : (turn : Turn) (s : State) → Barred t u s → Every (Barred t u) (step work turn s)
  unfolding step thread_step
  step-Barred main_thread s h = main_step-Barred s.program s.rem s.log h
  step-Barred (thread x) s h = on (s.rem x) refl
    where
      on : (es : List Event) → s.rem x ≡ es → Every (Barred t u) (thread_step work x s)
      on [] e = rw (e, thread_step) tt
      on (e ∷ es) k = rw (k, thread_step) (act-Barred x e es s k h)
