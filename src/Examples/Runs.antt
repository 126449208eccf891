-- ===== src/Examples/Runs.antt =====
-- The theorems on the runs of pm_study/microbenchmark/lat.cpp at concrete inputs.
use rw_sep.Prelude.{
  ℕ, ◌+◌, ◌*◌, ◌^◌, ◌≡◌, refl, false, some, List, [], length, leb, ltb, replicate, if◌then◌else◌,
  arith,
}
use rw_sep.Traverse.{chasing_ptr, link_units}
use rw_sep.Traverse.Visits.{as_number, visits_to, prepared}
use rw_sep.Traverse.Runs.{
  Method, Outcome, sweep, all_runs, run_all, access_lat, main, calc_lat, chase_rounds,
}
use rw_sep.Traverse.Sweep.{fitting, started, access_lat_lem}
use rw_sep.Traverse.Accesses.{AllAround, total_calls, accesses_counted}
use rw_sep.Examples.Traverse.{rotate, rotate-Shuffles}

access_lat_lem_example : access_lat 4096 (2 ^ 14) ≡ (
    if leb (2 ^ 14) (2 ^ 30)
    then Outcome.exit_failure
        (started 4096 (fitting (2 ^ 14) (sweep Method.wr_clwb_sfence false chasing_ptr)))
    else Outcome.returned (started 4096 all_runs))
access_lat_lem_example = access_lat_lem 4096 (2 ^ 14)

-- Two runs fit into 2 ^ 14 bytes.
two_runs : length (fitting (2 ^ 14) (sweep Method.wr_clwb_sfence false chasing_ptr)) ≡ 2
unfolding sweep
two_runs = refl

-- `main` exits before its first run.
main_exits : main (λ size. 4096) ≡ Outcome.exit_failure []
unfolding main run_all all_runs
main_exits = refl

accesses_counted_example :
    (linked : List ℕ) × (link_units (prepared rotate false 16) (replicate 16 0) ≡ some linked)
    × AllAround 16 (λ k. 3 * k) 0 (chase_rounds 16 16 (λ k. 3 * k) 0 2 linked)
    × (total_calls (chase_rounds 16 16 (λ k. 3 * k) 0 2 linked) + 2 ≡ 2 * 16)
    × ((a : ℕ) → visits_to a (calc_lat 2 (prepared rotate false 16)) ≡ 2 * as_number (ltb a 16))
    × (length (calc_lat 2 (prepared rotate false 16)) ≡ 2 * 16)
accesses_counted_example =
    accesses_counted rotate rotate-Shuffles 16 16 2 (λ k. 3 * k) false (replicate 16 0)
      (omega arith) (omega arith) (omega arith)
