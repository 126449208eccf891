-- ===== src/Examples/Probes.antt =====
-- The theorems on the probes and on `cachefence` of OptaneStudy/src/memaccess.c at concrete inputs.
use rw_sep.Prelude.{◌≡◌, refl, some, arith}
use rw_sep.Machine.{Cpu}
use rw_sep.Machine.Persist.{effects, Durable}
use rw_sep.Memaccess.Probes.{cachefence}
use rw_sep.Memaccess.Probes.Batches.{cachefence-Durable}
use rw_sep.Examples.{boot, all_clean, clean-NoDirty}

cachefence-Durable_example :
    (c' : Cpu) × (cachefence 5000 4096 1000 256 500 boot ≡ some c')
    × Durable (effects c'.trace all_clean)
cachefence-Durable_example =
    cachefence-Durable 5000 4096 1000 256 500 boot all_clean refl (omega arith) (omega arith)
      (omega arith) (omega arith) (omega arith) (omega arith) (omega arith) clean-NoDirty
