-- ===== src/Examples/Separation.antt =====
-- The theorems on fastallocate/rw_sep.cpp at concrete inputs.
use mathlib.Core.List.{Perm}
use rw_sep.Prelude.{ℕ, ◌*◌, ◌≡◌, none, some, [], length, length-replicate, replicate, arith}
use rw_sep.Separation.{Bench, times, wr_mix, wr_sep, sweep}
use rw_sep.Separation.Order.{writes, wr_sep_reorders}
use rw_sep.Separation.Sweep.{sweep_overruns, sweep_completes}

-- The objects that an argument of 3 allocates.
abbrev small : Bench
small = record { objects = replicate 9 0; log = [] }

wr_sep_reorders_example :
    (mix : Bench) × (sep : Bench) × (wr_mix (2 * 1) small ≡ some mix)
    × (wr_sep (2 * 1) small ≡ some sep)
    × (mix.objects ≡ sep.objects)
    × (writes mix.log ≡ writes sep.log)
    × Perm mix.log sep.log
wr_sep_reorders_example = wr_sep_reorders 1 small (omega arith) (omega arith)

sweep_overruns_example : sweep 10 small ≡ none
sweep_overruns_example = sweep_overruns 9 small (omega arith)

-- The objects that the argument 512 allocates.
abbrev large : Bench
large = record { objects = replicate (times 512) 0; log = [] }

sweep_completes_example :
    (s' : Bench) × (sweep 10 large ≡ some s') × (length s'.objects ≡ length large.objects)
unfolding times
sweep_completes_example = sweep_completes 10 large (omega (arith, length-replicate {A = ℕ} 2045 0))
