-- ===== src/Latency/Bytes256.antt =====
-- The 256-byte kernels of OptaneStudy/src/common.h over vector registers.
use rw_sep.Prelude.{[], ◌∷◌, ◌++◌, ◌*◌}
use rw_sep.Machine.{Instr}
use rw_sep.Latency.Macros.{
  Kernel, at, load_value, load_addr, load_cache_line, flush_cache_line, clear_pipeline, value_word,
}

unfoldable pub store_256byte_fence : Kernel
unfolding clear_pipeline load_addr load_cache_line load_value
store_256byte_fence addr = record {
  before = (load_value value_word) ++ (load_addr addr) ++ load_cache_line ++ clear_pipeline;
  timed =
      Instr.vmovdqa_store 4 0 (at (0 * 32))
      ∷ Instr.vmovdqa_store 4 0 (at (1 * 32))
      ∷ Instr.vmovdqa_store 4 0 (at (2 * 32))
      ∷ Instr.vmovdqa_store 4 0 (at (3 * 32))
      ∷ Instr.vmovdqa_store 4 0 (at (4 * 32))
      ∷ Instr.vmovdqa_store 4 0 (at (5 * 32))
      ∷ Instr.vmovdqa_store 4 0 (at (6 * 32))
      ∷ Instr.vmovdqa_store 4 0 (at (7 * 32))
      ∷ [];
}

unfoldable pub store_256byte_clflush : Kernel
unfolding clear_pipeline load_addr load_cache_line load_value
store_256byte_clflush addr = record {
  before = (load_addr addr) ++ (load_value value_word) ++ load_cache_line ++ clear_pipeline;
  timed =
      Instr.vmovdqa_store 4 0 (at (0 * 32))
      ∷ Instr.vmovdqa_store 4 0 (at (1 * 32))
      ∷ Instr.clflush (at (0 * 32))
      ∷ Instr.vmovdqa_store 4 0 (at (2 * 32))
      ∷ Instr.vmovdqa_store 4 0 (at (3 * 32))
      ∷ Instr.clflush (at (2 * 32))
      ∷ Instr.vmovdqa_store 4 0 (at (4 * 32))
      ∷ Instr.vmovdqa_store 4 0 (at (5 * 32))
      ∷ Instr.clflush (at (4 * 32))
      ∷ Instr.vmovdqa_store 4 0 (at (6 * 32))
      ∷ Instr.vmovdqa_store 4 0 (at (7 * 32))
      ∷ Instr.clflush (at (6 * 32))
      ∷ [];
}

unfoldable pub store_256byte_clwb : Kernel
unfolding clear_pipeline load_addr load_cache_line load_value
store_256byte_clwb addr = record {
  before = (load_addr addr) ++ (load_value value_word) ++ load_cache_line ++ clear_pipeline;
  timed =
      Instr.vmovdqa_store 4 0 (at (0 * 32))
      ∷ Instr.vmovdqa_store 4 0 (at (1 * 32))
      ∷ Instr.clwb (at (0 * 32))
      ∷ Instr.vmovdqa_store 4 0 (at (2 * 32))
      ∷ Instr.vmovdqa_store 4 0 (at (3 * 32))
      ∷ Instr.clwb (at (2 * 32))
      ∷ Instr.vmovdqa_store 4 0 (at (4 * 32))
      ∷ Instr.vmovdqa_store 4 0 (at (5 * 32))
      ∷ Instr.clwb (at (4 * 32))
      ∷ Instr.vmovdqa_store 4 0 (at (6 * 32))
      ∷ Instr.vmovdqa_store 4 0 (at (7 * 32))
      ∷ Instr.clwb (at (6 * 32))
      ∷ [];
}

unfoldable pub store_256byte_clflushopt : Kernel
unfolding clear_pipeline load_addr load_cache_line load_value
store_256byte_clflushopt addr = record {
  before = (load_addr addr) ++ (load_value value_word) ++ load_cache_line ++ clear_pipeline;
  timed =
      Instr.vmovdqa_store 4 0 (at (0 * 32))
      ∷ Instr.vmovdqa_store 4 0 (at (1 * 32))
      ∷ Instr.clflushopt (at (0 * 32))
      ∷ Instr.vmovdqa_store 4 0 (at (2 * 32))
      ∷ Instr.vmovdqa_store 4 0 (at (3 * 32))
      ∷ Instr.clflushopt (at (2 * 32))
      ∷ Instr.vmovdqa_store 4 0 (at (4 * 32))
      ∷ Instr.vmovdqa_store 4 0 (at (5 * 32))
      ∷ Instr.clflushopt (at (4 * 32))
      ∷ Instr.vmovdqa_store 4 0 (at (6 * 32))
      ∷ Instr.vmovdqa_store 4 0 (at (7 * 32))
      ∷ Instr.clflushopt (at (6 * 32))
      ∷ [];
}

unfoldable pub nstore_256byte_fence : Kernel
unfolding clear_pipeline flush_cache_line load_addr load_value
nstore_256byte_fence addr = record {
  before = (load_addr addr) ++ (load_value value_word) ++ flush_cache_line ++ clear_pipeline;
  timed =
      Instr.vmovnt_store 4 0 (at (0 * 32))
      ∷ Instr.vmovnt_store 4 0 (at (1 * 32))
      ∷ Instr.vmovnt_store 4 0 (at (2 * 32))
      ∷ Instr.vmovnt_store 4 0 (at (3 * 32))
      ∷ Instr.vmovnt_store 4 0 (at (4 * 32))
      ∷ Instr.vmovnt_store 4 0 (at (5 * 32))
      ∷ Instr.vmovnt_store 4 0 (at (6 * 32))
      ∷ Instr.vmovnt_store 4 0 (at (7 * 32))
      ∷ [];
}

unfoldable pub load_256byte_fence : Kernel
unfolding clear_pipeline flush_cache_line load_addr
load_256byte_fence addr = record {
  before = (load_addr addr) ++ flush_cache_line ++ clear_pipeline;
  timed =
      Instr.vmovdqa_load 4 (at (0 * 32)) 0
      ∷ Instr.vmovdqa_load 4 (at (1 * 32)) 1
      ∷ Instr.vmovdqa_load 4 (at (2 * 32)) 1
      ∷ Instr.vmovdqa_load 4 (at (3 * 32)) 1
      ∷ Instr.vmovdqa_load 4 (at (4 * 32)) 1
      ∷ Instr.vmovdqa_load 4 (at (5 * 32)) 1
      ∷ Instr.vmovdqa_load 4 (at (6 * 32)) 1
      ∷ Instr.vmovdqa_load 4 (at (7 * 32)) 1
      ∷ [];
}

unfoldable pub load_256byte_fence_nt : Kernel
unfolding clear_pipeline flush_cache_line load_addr
load_256byte_fence_nt addr = record {
  before = (load_addr addr) ++ flush_cache_line ++ clear_pipeline;
  timed =
      Instr.vmovntdqa 4 (at (0 * 32)) 0
      ∷ Instr.vmovntdqa 4 (at (1 * 32)) 1
      ∷ Instr.vmovntdqa 4 (at (2 * 32)) 1
      ∷ Instr.vmovntdqa 4 (at (3 * 32)) 1
      ∷ Instr.vmovntdqa 4 (at (4 * 32)) 1
      ∷ Instr.vmovntdqa 4 (at (5 * 32)) 1
      ∷ Instr.vmovntdqa 4 (at (6 * 32)) 1
      ∷ Instr.vmovntdqa 4 (at (7 * 32)) 1
      ∷ [];
}

unfoldable pub repeat_256byte_ntstore : Kernel
unfolding load_addr load_value
repeat_256byte_ntstore addr = record {
  before = (load_value value_word) ++ (load_addr addr);
  timed =
      Instr.vmovnt_store 4 0 (at (0 * 32))
      ∷ Instr.vmovnt_store 4 0 (at (1 * 32))
      ∷ Instr.vmovnt_store 4 0 (at (2 * 32))
      ∷ Instr.vmovnt_store 4 0 (at (3 * 32))
      ∷ Instr.vmovnt_store 4 0 (at (4 * 32))
      ∷ Instr.vmovnt_store 4 0 (at (5 * 32))
      ∷ Instr.vmovnt_store 4 0 (at (6 * 32))
      ∷ Instr.vmovnt_store 4 0 (at (7 * 32))
      ∷ [];
}

unfoldable pub repeat_256byte_load : Kernel
unfolding load_addr load_value
repeat_256byte_load addr = record {
  before = (load_value value_word) ++ (load_addr addr);
  timed =
      Instr.vmovntdqa 4 (at (0 * 32)) 0
      ∷ Instr.vmovntdqa 4 (at (1 * 32)) 1
      ∷ Instr.vmovntdqa 4 (at (2 * 32)) 2
      ∷ Instr.vmovntdqa 4 (at (3 * 32)) 3
      ∷ Instr.vmovntdqa 4 (at (4 * 32)) 4
      ∷ Instr.vmovntdqa 4 (at (5 * 32)) 5
      ∷ Instr.vmovntdqa 4 (at (6 * 32)) 6
      ∷ Instr.vmovntdqa 4 (at (7 * 32)) 7
      ∷ [];
}
