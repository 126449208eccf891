-- ===== src/Separation/Sweep.antt =====
-- For which arrays the whole sweep of fastallocate/rw_sep.cpp stays in bounds.
use rw_sep.Prelude.{
  ℕ, zero, suc, ◌+◌, ◌-◌, ◌*◌, ◌/◌, ◌<◌, ◌≤◌, ◌≡◌, refl, ◌∙◌, Option, none, some, List, ◌∷◌, [],
  ◌++◌, length, get_elem?, arith,
}
use native.Mathlib.Decide.{dec_lt}
use native.Mathlib.Nat.{le-div_iff_mul-le}
use rw_sep.Separation.{
  Access, Bench, n_rw, read_object, mix_loop, mix_round, sep_round, rounds, wr_mix, wr_sep, measure,
  sweep_from, sweep,
}
use rw_sep.Separation.Passes.{
  bumped_from, mixed, reads, streams, bumped, read_object_lem, length-bumped, stream_object_lem,
}
use rw_sep.Separation.Rounds.{
  repeated, round_count-some, length-bumped_from, mix_round_lem, sep_round_lem, after_rounds,
  rounds_lem, length-after_rounds,
}

-- A normal end that keeps the number of objects.
abbrev Keeps : Option Bench → Bench → Type 0
Keeps r s = (s' : Bench) × (r ≡ some s') × (length s'.objects ≡ length s.objects)

measure-Keeps :
    (n : ℕ) (s : Bench) → 0 < n → 4 * (2 * n) < length s.objects + 4 → Keeps (measure (2 * n) s) s
unfolding measure wr_mix wr_sep
measure-Keeps n s pos h =
    let turns = round_count-some (2 * n) (omega arith) in
    let f = bumped_from (2 * n) 0 in
    let kept = length-bumped_from (2 * n) 0 in
    let k : ℕ = n_rw / (2 * n) in
    let mix =
      rounds_lem (4 * (2 * n)) (mix_round (2 * n)) f (mixed (2 * n) 0) kept (mix_round_lem (2 * n))
        k s h in
    let same = length-after_rounds f kept k s.objects in
    let mixed_up : Bench = record {
      objects = after_rounds k f s.objects;
      log = s.log ++ repeated k (mixed (2 * n) 0);
    } in
    let fenced : Bench = record mixed_up { log = mixed_up.log ++ Access.fence ∷ [] } in
    let apart = reads (2 * n) 0 ++ streams (2 * n) 0 in
    let sep =
      rounds_lem (4 * (2 * n)) (sep_round (2 * n)) f apart kept (sep_round_lem n) k fenced
        (omega (arith, same)) in
    (
      record { objects = after_rounds k f fenced.objects; log = fenced.log ++ repeated k apart },
      rw (turns, mix, sep),
      length-after_rounds f kept k fenced.objects ∙ same,
    )

rounds-Keeps :
    (body : Bench → Option Bench) (bound k : ℕ) (s : Bench)
    → ((t : Bench) → bound < length t.objects + 4 → Keeps (body t) t)
    → bound < length s.objects + 4
    → Keeps (rounds k body s) s
unfolding rounds
rounds-Keeps body bound zero s keeps h = (s, refl, refl)
rounds-Keeps body bound (suc k) s keeps h =
    let (s1, first, same) = keeps s h in
    let (s2, rest, same') = rounds-Keeps body bound k s1 keeps (omega (arith, same)) in
    (s2, rw first rest, same' ∙ same)

absent : (xs : List ℕ) (k : ℕ) → length xs ≤ k → get_elem? xs k ≡ none
absent [] k h = refl
absent (x ∷ xs) zero h = absurd (omega arith)
absent (x ∷ xs) (suc k) h = absent xs k (omega arith)

read_object_absent : (k : ℕ) (s : Bench) → length s.objects ≤ k → read_object k s ≡ none
unfolding read_object
read_object_absent k s h = rw (absent s.objects k h)

-- The last object of a mixed loop is not there.
mix_loop_short :
    (left j : ℕ) (s : Bench) → length s.objects ≤ 4 * (j + left) → mix_loop (suc left) j s ≡ none
unfolding mix_loop
mix_loop_short zero j s h =
    let here : j + 0 ≡ j = omega arith in rw (here, read_object_absent (4 * j) s (omega arith))
mix_loop_short (suc left) j s h =
    let here : j + 0 ≡ j = omega arith in
    elim (dec_lt (4 * j) (length s.objects)) [
      | yes inside ↦
          let s1 : Bench = record s { log = s.log ++ Access.read (4 * j) ∷ [] } in
          let s2 : Bench = record {
            objects = bumped s.objects (4 * j);
            log = s1.log ++ Access.read (4 * j) ∷ Access.stream (4 * j) ∷ [];
          } in
          rw (here, read_object_lem (4 * j) s inside, stream_object_lem (4 * j) s1 inside)
            (mix_loop_short left (j + 1) s2 (omega (arith, length-bumped s.objects (4 * j))))
      | no outside ↦ rw (here, read_object_absent (4 * j) s (omega arith))
    ]

-- A round of the loop over `t` for a sep_grn whose last object is not there.
measure_short :
    (n : ℕ) (s : Bench) → 0 < n → n ≤ n_rw → length s.objects + 4 ≤ 4 * n → measure n s ≡ none
unfolding measure wr_mix rounds mix_round
measure_short n s pos few short =
    let last : n ≡ suc (n - 1) = omega arith in
    let some_rounds : n_rw / n ≡ suc (n_rw / n - 1) =
      (let one = le-div_iff_mul-le {k = n} {x = 1} {y = n_rw} pos in
        omega (arith, one.1 (omega arith))) in
    let turns = round_count-some n pos in
    let first : mix_loop n 0 s ≡ none = rw last (mix_loop_short (n - 1) 0 s (omega arith)) in
    rw (turns, some_rounds, rounds, first)

-- One doubling, whatever the ones behind it do.
sweep_from_short :
    (n left t : ℕ) (s : Bench)
    → 0 < n
    → 2 * n ≤ n_rw
    → ((s' : Bench)
        → length s'.objects ≡ length s.objects
        → sweep_from left (2 * n * 2) (suc t) s' ≡ none)
    → sweep_from (suc left) (2 * n) (suc t) s ≡ none
unfolding sweep_from
sweep_from_short n left t s pos few rest = elim (dec_lt (4 * (2 * n)) (length s.objects + 4)) [
  | yes fits ↦
      let (s', ends, same) =
        rounds-Keeps (measure (2 * n)) (4 * (2 * n)) (suc t) s (λ t h. measure-Keeps n t pos h)
          fits in
      rw ends (rest s' same)
  | no short ↦ rw (rounds, measure_short (2 * n) s (omega arith) few (omega arith))
]

-- With fewer than 2045 objects, as many as an argument below 512 allocates, the sweep accesses an
-- object outside the array, whatever the number of test loops above 0.
pub sweep_overruns : (t : ℕ) (s : Bench) → length s.objects ≤ 2044 → sweep (suc t) s ≡ none
unfolding sweep
sweep_overruns t s h = sweep_from_short 8 5 t s (omega arith) (omega arith) λ s1 e1.
    sweep_from_short 16 4 t s1 (omega arith) (omega arith) λ s2 e2.
      sweep_from_short 32 3 t s2 (omega arith) (omega arith) λ s3 e3.
        sweep_from_short 64 2 t s3 (omega arith) (omega arith) λ s4 e4.
          sweep_from_short 128 1 t s4 (omega arith) (omega arith)
            λ s5 e5. last_doubling t s5 (omega (arith, e1, e2, e3, e4, e5))
  where
    last_doubling :
        (t' : ℕ) (s' : Bench) → length s'.objects ≤ 2044 → sweep_from 1 512 (suc t') s' ≡ none
    last_doubling t' s' h' =
        unfold sweep_from in
        rw (rounds, measure_short 512 s' (omega arith) (omega arith) (omega arith))

sweep_from-Keeps :
    (n left t : ℕ) (s : Bench)
    → 0 < n
    → 4 * (2 * n) < length s.objects + 4
    → ((s' : Bench)
        → length s'.objects ≡ length s.objects
        → Keeps (sweep_from left (2 * n * 2) t s') s')
    → Keeps (sweep_from (suc left) (2 * n) t s) s
unfolding sweep_from
sweep_from-Keeps n left t s pos fits rest =
    let (s1, ends, same) =
      rounds-Keeps (measure (2 * n)) (4 * (2 * n)) t s (λ t h. measure-Keeps n t pos h) fits in
    let (s2, ends', same') = rest s1 same in (s2, rw ends ends', same' ∙ same)

-- With 2045 objects or more, as many as an argument from 512 on allocates, the sweep ends, whatever
-- the number of test loops, and keeps the number of objects.
pub sweep_completes :
    (t : ℕ) (s : Bench)
    → 2045 ≤ length s.objects
    → (s' : Bench) × (sweep t s ≡ some s') × (length s'.objects ≡ length s.objects)
unfolding sweep
sweep_completes t s h = sweep_from-Keeps 8 5 t s (omega arith) (omega arith) λ s1 e1.
    sweep_from-Keeps 16 4 t s1 (omega arith) (omega (arith, e1)) λ s2 e2.
      sweep_from-Keeps 32 3 t s2 (omega arith) (omega (arith, e1, e2)) λ s3 e3.
        sweep_from-Keeps 64 2 t s3 (omega arith) (omega (arith, e1, e2, e3)) λ s4 e4.
          sweep_from-Keeps 128 1 t s4 (omega arith) (omega (arith, e1, e2, e3, e4)) λ s5 e5.
            sweep_from-Keeps 256 0 t s5 (omega arith) (omega (arith, e1, e2, e3, e4, e5))
              λ s6 e6. unfold sweep_from in (s6, refl, refl)
