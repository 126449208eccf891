-- ===== src/Traverse/Sweep.antt =====
-- How far `access_lat` of pm_study/microbenchmark/lat.cpp gets.
use native.Mathlib.Numerals.{towards_suc}
use rw_sep.Prelude.{
  ℕ, zero, suc, ◌+◌, ◌*◌, ◌/◌, ◌^◌, ◌≤◌, ◌<◌, ◌≡◌, refl, sym, ap, ◌∙◌, Bool, true, false,
  Bool-cases, inl, inr, List, [], ◌∷◌, ◌++◌, All, All-append, leb, ltb, if◌then◌else◌, arith,
}
use rw_sep.Traverse.{TraverseType, chasing_ptr}
use rw_sep.Traverse.Runs.{
  Method, Args, Started, Outcome, jobs_from, round_down, sizes, sweep, loops, runs_of, all_runs,
  after_run, run_all, access_lat,
}

pow_suc : (w : ℕ) → 2 ^ (w + 1) ≡ 2 * 2 ^ w
pow_suc w = simp towards_suc (omega arith)

pow_le : (w k : ℕ) → 2 ^ w ≤ 2 ^ (w + k)
pow_le w zero = let e : w + zero ≡ w = omega arith in rw e (omega arith)
pow_le w (suc k) =
    let e : w + suc k ≡ w + k + 1 = omega arith in
    rw (e, pow_suc (w + k)) (omega (arith, pow_le w k))

-- The runs whose working set is below a bound.
abbrev pub fitting : (max_size : ℕ) → List Args → List Args
fitting max_size [] = []
fitting max_size (a ∷ more) =
    if ltb a.wss max_size then a ∷ fitting max_size more else fitting max_size more

-- Runs as they start, each with all its threads' shares.
abbrev pub started_of : (addr : ℕ) → Args → Started
started_of addr a = record {
  args = a;
  jobs = jobs_from addr (round_down (a.wss / a.threads)) 0 a.threads;
}

abbrev pub started : (addr : ℕ) → List Args → List Started
started addr [] = []
started addr (a ∷ more) = started_of addr a ∷ started addr more

abbrev args_of : Method → Bool → TraverseType → ℕ → Args
args_of m seq tp w = record {
  wr_ops = m;
  wss = 2 ^ w;
  iterations = 2 ^ 30 / 2 ^ w;
  seq = seq;
  threads = 1;
  traverse_pattern = tp;
}

-- One run that exits, and one that does not.
run_all_large :
    (addr max_size : ℕ) (a : Args) (more : List Args)
    → max_size ≤ a.wss
    → run_all addr max_size (a ∷ more) ≡ Outcome.exit_failure []
unfolding run_all
run_all_large addr max_size a more h =
    let large : leb max_size a.wss ≡ true = ground arith in rw (large, run_all) refl

run_all_small :
    (addr max_size : ℕ) (a : Args) (more : List Args)
    → a.wss < max_size
    → run_all addr max_size (a ∷ more) ≡ after_run (started_of addr a) (run_all addr max_size more)
unfolding run_all
run_all_small addr max_size a more h =
    let small : leb max_size a.wss ≡ false = ground arith in rw (small, run_all) refl

run_all_fits :
    (addr max_size : ℕ) (runs : List Args)
    → All (λ a. a.wss < max_size) runs
    → run_all addr max_size runs ≡ Outcome.returned (started addr runs)
unfolding after_run
run_all_fits addr max_size [] h = unfold run_all in refl
run_all_fits addr max_size (a ∷ more) h =
    run_all_small addr max_size a more h.0
    ∙ ap (after_run (started_of addr a)) (run_all_fits addr max_size more h.1)

fitting-sizes :
    (max_size : ℕ) (m : Method) (seq : Bool) (tp : TraverseType) (w left : ℕ)
    → max_size ≤ 2 ^ w
    → fitting max_size (sizes m seq tp w left) ≡ []
unfolding sizes
fitting-sizes max_size m seq tp w zero h = refl
fitting-sizes max_size m seq tp w (suc left) h =
    let large : ltb (2 ^ w) max_size ≡ false = ground arith in
    rw large (fitting-sizes max_size m seq tp (w + 1) left (omega (arith, pow_suc w)))

large-sizes :
    (addr max_size : ℕ) (m : Method) (seq : Bool) (tp : TraverseType) (w left : ℕ)
    (rest : List Args)
    → max_size ≤ 2 ^ w
    → run_all addr max_size (sizes m seq tp w (suc left) ++ rest)
      ≡ Outcome.exit_failure (started addr (fitting max_size (sizes m seq tp w (suc left))))
unfolding sizes
large-sizes addr max_size m seq tp w left rest h =
    run_all_large addr max_size (args_of m seq tp w) (sizes m seq tp (w + 1) left ++ rest) h
    ∙ ap (λ runs. Outcome.exit_failure (started addr runs))
        (sym (unfold sizes in fitting-sizes max_size m seq tp w (suc left) h))

run_all-sizes :
    (addr max_size : ℕ) (m : Method) (seq : Bool) (tp : TraverseType) (w left : ℕ)
    (rest : List Args)
    → max_size ≤ 2 ^ (w + left)
    → run_all addr max_size (sizes m seq tp w (suc left) ++ rest)
      ≡ Outcome.exit_failure (started addr (fitting max_size (sizes m seq tp w (suc left))))
unfolding sizes after_run
run_all-sizes addr max_size m seq tp w zero rest h =
    large-sizes addr max_size m seq tp w zero rest (let e : w + zero ≡ w = omega arith in rw e at h)
run_all-sizes addr max_size m seq tp w (suc left) rest h =
    elim (Bool-cases (leb max_size (2 ^ w))) [
      | inl large ↦ large-sizes addr max_size m seq tp w (suc left) rest (ground arith)
      | inr small ↦
          let fits : ltb (2 ^ w) max_size ≡ true = ground arith in
          let e : w + suc left ≡ w + 1 + left = omega arith in
          rw fits (
            run_all_small addr max_size (args_of m seq tp w)
              (sizes m seq tp (w + 1) (suc left) ++ rest) (ground arith)
            ∙ ap (after_run (started_of addr (args_of m seq tp w)))
                (run_all-sizes addr max_size m seq tp (w + 1) left rest (rw e at h)))
    ]

All-sizes :
    (max_size : ℕ) (m : Method) (seq : Bool) (tp : TraverseType) (w left : ℕ)
    → 2 ^ 30 < max_size
    → w + left ≡ 31
    → All (λ a. a.wss < max_size) (sizes m seq tp w left)
unfolding sizes
All-sizes max_size m seq tp w zero h e = tt
All-sizes max_size m seq tp w (suc left) h e =
    let last : w + left ≡ 30 = omega arith in
    let below : 2 ^ (w + left) ≡ 2 ^ 30 = ap (λ (k : ℕ). 2 ^ k) last in
    (omega (arith, pow_le w left, below), All-sizes max_size m seq tp (w + 1) left h (omega arith))

-- Each loop of `access_lat` fits.
runs_of_fit :
    (max_size : ℕ) (ls : List (Method × Bool × TraverseType))
    → 2 ^ 30 < max_size
    → All (λ a. a.wss < max_size) (runs_of ls)
unfolding runs_of sweep
runs_of_fit max_size [] h = tt
runs_of_fit max_size ((m, seq, tp) ∷ more) h =
    All-append (λ a. a.wss < max_size) (sizes m seq tp 12 19) (runs_of more)
      (All-sizes max_size m seq tp 12 19 h refl) (runs_of_fit max_size more h)

abbrev later_loops : List (Method × Bool × TraverseType)
later_loops = elim loops [ [] ↦ [] | l ∷ ls ↦ ls ]

-- `access_lat` returns, with all its runs started, when max_size is above 2 ^ 30. Else it exits in
-- its first loop, having started the runs of that loop whose working set is below max_size, and no
-- other.
pub access_lat_lem :
    (addr max_size : ℕ)
    → access_lat addr max_size ≡ (
        if leb max_size (2 ^ 30)
        then Outcome.exit_failure
            (started addr (fitting max_size (sweep Method.wr_clwb_sfence false chasing_ptr)))
        else Outcome.returned (started addr all_runs))
unfolding access_lat all_runs runs_of sweep
access_lat_lem addr max_size = elim (Bool-cases (leb max_size (2 ^ 30))) [
  | inl short ↦ rw short (
      run_all-sizes addr max_size Method.wr_clwb_sfence false chasing_ptr 12 18
        (runs_of later_loops) (ground arith))
  | inr enough ↦
      rw enough (run_all_fits addr max_size all_runs (runs_of_fit max_size loops (ground arith)))
]
