-- ===== src/Examples/Sequential.antt =====
-- The theorems on the sequential kernels of OptaneStudy/src/memaccess.c at concrete inputs.
use rw_sep.Prelude.{◌≡◌, refl, some, [], ◌∷◌, ◌++◌, arith}
use rw_sep.Machine.{Event, Cpu}
use rw_sep.Machine.Persist.{effects, Durable}
use rw_sep.Memaccess.Sequential.{seq_store}
use rw_sep.Memaccess.Sequential.Kernels.{seq_store-Durable}
use rw_sep.Examples.{boot, all_clean, clean-NoDirty}

seq_store-Durable_example :
    (c' : Cpu) × (seq_store 5000 4096 8192 256 boot ≡ some c')
    × Durable (effects (c'.trace ++ Event.mfence ∷ []) all_clean)
seq_store-Durable_example =
    seq_store-Durable 4096 8192 256 5000 boot (omega arith) (omega arith) (omega arith)
      (omega arith) (omega arith) (omega arith) all_clean clean-NoDirty refl refl
