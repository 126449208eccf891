-- ===== src/Examples/Globals.antt =====
-- The theorems on the global pointers of fastallocate/fastalloc.cpp and its copy at concrete
-- inputs.
use mathlib.Core.Option
use rw_sep.Prelude.{
  ℕ, ◌≡◌, refl, inr, true, false, none, some, List, [], ◌∷◌, ◌++◌, replicate, arith,
}
use rw_sep.Prelude.Loops.{◌>>=◌}
use rw_sep.Fastalloc.{init, constructed, alloc, free}
use rw_sep.Fastalloc.Globals.{unset, init_both}
use rw_sep.Fastalloc.Globals.Lives.{Life, Call, lives, run, follow_all}
use rw_sep.Fastalloc.Globals.Protocol.{run_follows}
use rw_sep.Fastalloc.Globals.Copy.{init_both_serves}
use rw_sep.Examples.{in_a_row}

abbrev zeroed : ℕ → List ℕ
zeroed r = replicate 100 0

-- One allocator, used and freed; then `fast_free` once more.
abbrev freed_twice : List Call
freed_twice = Call.start false ∷ Call.request 64 true ∷ Call.free ∷ Call.free ∷ []

run_follows_example :
    Option.map lives (run in_a_row zeroed zeroed freed_twice (unset 0))
    ≡ follow_all freed_twice (Life.absent, Life.absent)
run_follows_example = run_follows in_a_row zeroed zeroed (λ r. refl) freed_twice 0 (omega arith)

freed_twice_undefined : run in_a_row zeroed zeroed freed_twice (unset 0) ≡ none
unfolding run init constructed alloc free
freed_twice_undefined = refl

-- `fast_alloc` after `init_fast_allocator(true)`.
wrong_allocator :
    run in_a_row zeroed zeroed (Call.start true ∷ Call.request 64 true ∷ []) (unset 0) ≡ none
unfolding run init constructed
wrong_allocator = refl

abbrev mixed : List Call
mixed = Call.request 64 true ∷ Call.concurrency_request 100 false ∷ []

init_both_serves_example :
    (Option.map lives (
        init_both in_a_row zeroed zeroed (unset 0)
        >>= run in_a_row zeroed zeroed (mixed ++ Call.free ∷ []))
      ≡ some (Life.gone, Life.gone))
    × (Option.map lives (
          init_both in_a_row zeroed zeroed (unset 0)
          >>= run in_a_row zeroed zeroed (mixed ++ Call.free ∷ Call.free ∷ []))
        ≡ none)
init_both_serves_example =
    init_both_serves in_a_row zeroed zeroed mixed 0 Call.free (λ r. refl) (tt, (tt, tt))
      (omega arith) (inr refl)
