-- ===== src/Traverse/Runs.antt =====
-- The iterations of a worker of pm_study/microbenchmark/lat.cpp, the division of a run among
-- threads, and the list of runs in `access_lat`. Threads, the barrier and the clock are left out:
-- `run` gives the address and the size that each thread gets, and the iterations give what is
-- accessed.
use rw_sep.Prelude.{
  ℕ, zero, suc, ◌+◌, ◌*◌, ◌/◌, ◌^◌, Bool, true, false, Option, none, some, List, [], ◌∷◌, ◌++◌, leb,
}
use rw_sep.Machine.{add64}
use rw_sep.Traverse.{TraverseType, chasing_ptr, calc_offset, Walk, chase_ptr_lat}

-- `calc_lat`: the units in the order, once in each iteration. Here and in `chase_ptr_lat` an `int i`
-- counts the iterations, of which there are fewer than 2 ^ 31: the program asks for 2 ^ 18 at most.
unfoldable pub calc_lat : (iter : ℕ) → (traverse_order : List ℕ) → List ℕ
calc_lat zero traverse_order = []
calc_lat (suc iter) traverse_order = traverse_order ++ calc_lat iter traverse_order

-- The iterations of `chase_ptr_lat` from number `i` on, where `random k` is the k-th number drawn.
unfoldable pub chase_rounds :
    (fuel unit_num : ℕ) → (random : ℕ → ℕ) → (i left : ℕ) → List ℕ → List Walk
chase_rounds fuel unit_num random i zero next = []
chase_rounds fuel unit_num random i (suc left) next =
    chase_ptr_lat fuel unit_num (random i) next
    ∷ chase_rounds fuel unit_num random (i + 1) left next

-- `ROUND_DOWN(x, 256ULL)`.
unfoldable pub round_down : ℕ → ℕ
round_down x = x / 256 * 256

-- What a thread gets of the working set.
pub record Job : Type 0 where
  pub base_addr : ℕ
  pub wss : ℕ

unfoldable pub jobs_from : (addr thread_wss : ℕ) → (tid left : ℕ) → List Job
jobs_from addr thread_wss tid zero = []
jobs_from addr thread_wss tid (suc left) =
    record { base_addr = add64 addr (tid * thread_wss); wss = thread_wss }
    ∷ jobs_from addr thread_wss (tid + 1) left

-- `run`, for at least one thread. `none` is the exit for a working set that is too large.
unfoldable pub run : (addr max_size wss threads : ℕ) → Option (List Job)
unfolding jobs_from round_down
run addr max_size wss threads = elim (leb max_size wss) [
  | true ↦ none
  | false ↦ some (jobs_from addr (round_down (wss / threads)) 0 threads)
]

-- The five methods.
pub data Method : Type 0 where
  rd wr_clwb wr_nt wr_clwb_sfence wr_nt_sfence : Method

-- The arguments of a run.
pub record Args : Type 0 where
  pub wr_ops : Method
  pub wss : ℕ
  pub iterations : ℕ
  pub seq : Bool
  pub threads : ℕ
  pub traverse_pattern : TraverseType

-- `for (int wss = …; wss <= 30; wss++) run(…)`, with `left` of them to go.
unfoldable pub sizes : Method → (seq : Bool) → TraverseType → (wss left : ℕ) → List Args
sizes wr_ops seq tp wss zero = []
sizes wr_ops seq tp wss (suc left) =
    record {
      wr_ops = wr_ops;
      wss = 2 ^ wss;
      iterations = 2 ^ 30 / 2 ^ wss;
      seq = seq;
      threads = 1;
      traverse_pattern = tp;
    }
    ∷ sizes wr_ops seq tp (wss + 1) left

unfoldable pub sweep : Method → (seq : Bool) → TraverseType → List Args
unfolding sizes
sweep wr_ops seq tp = sizes wr_ops seq tp 12 19

-- The loops of `access_lat`, in their order.
abbrev pub loops : List (Method × Bool × TraverseType)
loops =
    (Method.wr_clwb_sfence, false, chasing_ptr)
    ∷ (Method.wr_nt_sfence, false, chasing_ptr)
    ∷ (Method.wr_clwb_sfence, true, chasing_ptr)
    ∷ (Method.wr_nt_sfence, true, chasing_ptr)
    ∷ (Method.wr_clwb, false, chasing_ptr)
    ∷ (Method.wr_nt, false, chasing_ptr)
    ∷ (Method.wr_clwb, true, chasing_ptr)
    ∷ (Method.wr_nt, true, chasing_ptr)
    ∷ (Method.rd, false, chasing_ptr)
    ∷ (Method.rd, true, chasing_ptr)
    ∷ (Method.wr_nt, false, calc_offset)
    ∷ (Method.wr_nt, true, calc_offset)
    ∷ []

unfoldable pub runs_of : List (Method × Bool × TraverseType) → List Args
runs_of [] = []
runs_of ((wr_ops, seq, tp) ∷ more) = sweep wr_ops seq tp ++ runs_of more

unfoldable pub all_runs : List Args
unfolding runs_of sweep
all_runs = runs_of loops

-- A run that was started, with the threads' shares.
pub record Started : Type 0 where
  pub args : Args
  pub jobs : List Job

-- How `access_lat` ends: with all runs, or by the exit of one, with the runs before it.
pub data Outcome : Type 0 where
  returned exit_failure : List Started → Outcome

unfoldable pub after_run : Started → Outcome → Outcome
after_run r (Outcome.returned rs) = Outcome.returned (r ∷ rs)
after_run r (Outcome.exit_failure rs) = Outcome.exit_failure (r ∷ rs)

unfoldable pub run_all : (addr max_size : ℕ) → List Args → Outcome
unfolding run after_run
run_all addr max_size [] = Outcome.returned []
run_all addr max_size (a ∷ more) = elim (run addr max_size a.wss a.threads) [
  | none ↦ Outcome.exit_failure []
  | some jobs ↦ after_run (record { args = a; jobs = jobs }) (run_all addr max_size more)
]

unfoldable pub access_lat : (addr max_size : ℕ) → Outcome
access_lat addr max_size = run_all addr max_size all_runs

-- `(1 < 30)`: the comparison.
abbrev pub alloc_max : ℕ
alloc_max = 1

-- `main`, where `fast_alloc` gives the address.
unfoldable pub main : (fast_alloc : ℕ → ℕ) → Outcome
unfolding access_lat
main fast_alloc = access_lat (fast_alloc alloc_max) alloc_max
