-- ===== src/Latency/Tables.antt =====
-- The tables of OptaneStudy/src/common.h, as built without AEP_SUPPORTED (no build file defines
-- it).
use rw_sep.Prelude.{ℕ, List, [], ◌∷◌}
use rw_sep.Latency.Macros.{Kernel}
use rw_sep.Latency.Bytes64.{
  store_64byte_fence, store_64byte_clflush, store_64byte_clwb, store_64byte_clflushopt,
  nstore_64byte_fence, load_64byte_fence, load_64byte_fence_nt, baseline, store_64byte_fence_movq,
  store_64byte_clflush_movq, load_64byte_fence_movq,
}
use rw_sep.Latency.Bytes128.{
  store_128byte_fence, store_128byte_clflush, store_128byte_clwb, store_128byte_clflushopt,
  nstore_128byte_fence, load_128byte_fence, load_128byte_fence_nt, store_128byte_fence_movq,
  store_128byte_clflush_movq, load_128byte_fence_movq,
}
use rw_sep.Latency.Bytes256.{
  store_256byte_fence, store_256byte_clflush, store_256byte_clwb, store_256byte_clflushopt,
  nstore_256byte_fence, load_256byte_fence, load_256byte_fence_nt,
}
use rw_sep.Latency.Bytes256Movq.{
  store_256byte_fence_movq, store_256byte_clflush_movq, load_256byte_fence_movq,
}

unfoldable pub latency_funcs_64byte : List Kernel
unfolding load_64byte_fence load_64byte_fence_nt store_64byte_fence store_64byte_clflush
    store_64byte_clwb store_64byte_clflushopt nstore_64byte_fence store_64byte_fence_movq
    store_64byte_clflush_movq load_64byte_fence_movq baseline
latency_funcs_64byte =
    load_64byte_fence ∷ load_64byte_fence_nt ∷ store_64byte_fence ∷ store_64byte_clflush
    ∷ store_64byte_clwb ∷ store_64byte_clflushopt ∷ nstore_64byte_fence ∷ store_64byte_fence_movq
    ∷ store_64byte_clflush_movq ∷ load_64byte_fence_movq ∷ baseline ∷ []

unfoldable pub latency_funcs_128byte : List Kernel
unfolding load_128byte_fence load_128byte_fence_nt store_128byte_fence store_128byte_clflush
    store_128byte_clwb store_128byte_clflushopt nstore_128byte_fence store_128byte_fence_movq
    store_128byte_clflush_movq load_128byte_fence_movq baseline
latency_funcs_128byte =
    load_128byte_fence ∷ load_128byte_fence_nt ∷ store_128byte_fence ∷ store_128byte_clflush
    ∷ store_128byte_clwb ∷ store_128byte_clflushopt ∷ nstore_128byte_fence
    ∷ store_128byte_fence_movq ∷ store_128byte_clflush_movq ∷ load_128byte_fence_movq ∷ baseline
    ∷ []

unfoldable pub latency_funcs_256byte : List Kernel
unfolding load_256byte_fence load_256byte_fence_nt store_256byte_fence store_256byte_clflush
    store_256byte_clwb store_256byte_clflushopt nstore_256byte_fence store_256byte_fence_movq
    store_256byte_clflush_movq load_256byte_fence_movq baseline
latency_funcs_256byte =
    load_256byte_fence ∷ load_256byte_fence_nt ∷ store_256byte_fence ∷ store_256byte_clflush
    ∷ store_256byte_clwb ∷ store_256byte_clflushopt ∷ nstore_256byte_fence
    ∷ store_256byte_fence_movq ∷ store_256byte_clflush_movq ∷ load_256byte_fence_movq ∷ baseline
    ∷ []

unfoldable pub bench_func : List Kernel
unfolding load_64byte_fence load_64byte_fence_nt store_64byte_fence store_64byte_clflush
    nstore_64byte_fence store_64byte_fence_movq store_64byte_clflush_movq load_64byte_fence_movq
    load_128byte_fence load_128byte_fence_nt store_128byte_fence store_128byte_clflush
    nstore_128byte_fence store_128byte_fence_movq store_128byte_clflush_movq load_128byte_fence_movq
    load_256byte_fence load_256byte_fence_nt store_256byte_fence store_256byte_clflush
    nstore_256byte_fence store_256byte_fence_movq store_256byte_clflush_movq load_256byte_fence_movq
    baseline
bench_func =
    load_64byte_fence ∷ load_64byte_fence_nt ∷ store_64byte_fence ∷ store_64byte_clflush
    ∷ nstore_64byte_fence ∷ store_64byte_fence_movq ∷ store_64byte_clflush_movq
    ∷ load_64byte_fence_movq ∷ load_128byte_fence ∷ load_128byte_fence_nt ∷ store_128byte_fence
    ∷ store_128byte_clflush ∷ nstore_128byte_fence ∷ store_128byte_fence_movq
    ∷ store_128byte_clflush_movq ∷ load_128byte_fence_movq ∷ load_256byte_fence
    ∷ load_256byte_fence_nt ∷ store_256byte_fence ∷ store_256byte_clflush ∷ nstore_256byte_fence
    ∷ store_256byte_fence_movq ∷ store_256byte_clflush_movq ∷ load_256byte_fence_movq ∷ baseline
    ∷ []

-- How far the next access of each task lies behind the one before.
unfoldable pub latency_tasks_skip : List ℕ
latency_tasks_skip =
    64 ∷ 64 ∷ 64 ∷ 64 ∷ 64 ∷ 64 ∷ 64 ∷ 64 ∷ 128 ∷ 128 ∷ 128 ∷ 128 ∷ 128 ∷ 128 ∷ 128 ∷ 128 ∷ 256
    ∷ 256 ∷ 256 ∷ 256 ∷ 256 ∷ 256 ∷ 256 ∷ 256 ∷ 0 ∷ []
