-- ===== src/Separation/Rounds.antt =====
-- What the rounds of fastallocate/rw_sep.cpp, mixed and separated, do to the objects, and what they
-- access, one round after another.
use rw_sep.Prelude.{
  ℕ, zero, suc, ◌+◌, ◌*◌, ◌/◌, ◌<◌, ◌≡◌, refl, ap, ◌∙◌, sym, Option, some, List, [], ◌++◌,
  append_assoc, append-nil, length, arith,
}
use rw_sep.Separation.{Access, Bench, n_rw, mix_round, sep_round, rounds, round_count}
use rw_sep.Separation.Passes.{
  bumped, bumped_from, length-bumped, mixed, reads, streams, mix_loop_lem, read_pairs_lem,
  stream_pairs_lem,
}

pub round_count-some : (n : ℕ) → 0 < n → round_count n ≡ some (n_rw / n)
unfolding round_count
round_count-some n h = ground arith

pub length-bumped_from : (left j : ℕ) (xs : List ℕ) → length (bumped_from left j xs) ≡ length xs
unfolding bumped_from
length-bumped_from zero j xs = refl
length-bumped_from (suc left) j xs =
    length-bumped_from left (j + 1) (bumped xs (4 * j)) ∙ length-bumped xs (4 * j)

pub mix_round_lem :
    (n : ℕ) (s : Bench)
    → 4 * n < length s.objects + 4
    → mix_round n s
      ≡ some (record { objects = bumped_from n 0 s.objects; log = s.log ++ mixed n 0 })
unfolding mix_round
mix_round_lem n s h = mix_loop_lem n 0 s (omega arith)

-- Separation takes pairs: `n` is the number of pairs.
pub sep_round_lem :
    (n : ℕ) (s : Bench)
    → 4 * (2 * n) < length s.objects + 4
    → sep_round (2 * n) s
      ≡ some (record {
        objects = bumped_from (2 * n) 0 s.objects;
        log = s.log ++ (reads (2 * n) 0 ++ streams (2 * n) 0);
      })
unfolding sep_round
sep_round_lem n s h =
    let half : (2 * n + 1) / 2 ≡ n = omega arith in
    let s1 : Bench = record s { log = s.log ++ reads (2 * n) 0 } in
    rw (half, read_pairs_lem n 0 s (omega arith), stream_pairs_lem n 0 s1 (omega arith))
      (ap (λ es. some (record { objects = bumped_from (2 * n) 0 s.objects; log = es }))
        (append_assoc s.log (reads (2 * n) 0) (streams (2 * n) 0)))

-- `k` rounds of a body that maps the objects by `f` and accesses `es`.
pub after_rounds : ℕ → (List ℕ → List ℕ) → List ℕ → List ℕ
after_rounds zero f xs = xs
after_rounds (suc k) f xs = after_rounds k f (f xs)

unfoldable pub repeated : ℕ → List Access → List Access
repeated zero es = []
repeated (suc k) es = es ++ repeated k es

pub rounds_lem :
    (bound : ℕ) (body : Bench → Option Bench) (f : List ℕ → List ℕ) (es : List Access)
    → ((xs : List ℕ) → length (f xs) ≡ length xs)
    → ((s : Bench)
        → bound < length s.objects + 4
        → body s ≡ some (record { objects = f s.objects; log = s.log ++ es }))
    → (k : ℕ) (s : Bench) → bound < length s.objects + 4
    → rounds k body s
      ≡ some (record { objects = after_rounds k f s.objects; log = s.log ++ repeated k es })
unfolding rounds after_rounds repeated
rounds_lem bound body f es kept step zero s h =
    ap (λ log. some (record s { log = log })) (sym (append-nil s.log))
rounds_lem bound body f es kept step (suc k) s h =
    let s1 : Bench = record { objects = f s.objects; log = s.log ++ es } in
    rw (step s h, rounds_lem bound body f es kept step k s1 (omega (arith, kept s.objects)))
      (simp append_assoc)

pub length-after_rounds :
    (f : List ℕ → List ℕ)
    → ((xs : List ℕ) → length (f xs) ≡ length xs)
    → (k : ℕ) (xs : List ℕ) → length (after_rounds k f xs) ≡ length xs
unfolding after_rounds
length-after_rounds f kept zero xs = refl
length-after_rounds f kept (suc k) xs = length-after_rounds f kept k (f xs) ∙ kept xs
