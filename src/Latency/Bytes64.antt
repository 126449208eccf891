-- ===== src/Latency/Bytes64.antt =====
-- The 64-byte kernels of OptaneStudy/src/common.h, and the empty one.
use rw_sep.Prelude.{[], ◌∷◌, ◌++◌, ◌*◌}
use rw_sep.Machine.{Instr, Reg}
use rw_sep.Latency.Macros.{
  Kernel, at, load_value, load_addr, load_cache_line, flush_cache_line, clear_pipeline, value_word,
}

unfoldable pub store_64byte_fence : Kernel
unfolding clear_pipeline load_addr load_cache_line load_value
store_64byte_fence addr = record {
  before = (load_value value_word) ++ (load_addr addr) ++ load_cache_line ++ clear_pipeline;
  timed = Instr.vmovdqa_store 4 0 (at (0 * 32)) ∷ Instr.vmovdqa_store 4 0 (at (1 * 32)) ∷ [];
}

unfoldable pub store_64byte_clflush : Kernel
unfolding clear_pipeline load_addr load_cache_line load_value
store_64byte_clflush addr = record {
  before = (load_addr addr) ++ (load_value value_word) ++ load_cache_line ++ clear_pipeline;
  timed =
      Instr.vmovdqa_store 4 0 (at (0 * 32))
      ∷ Instr.vmovdqa_store 4 0 (at (1 * 32))
      ∷ Instr.clflush (at 0)
      ∷ [];
}

unfoldable pub store_64byte_clwb : Kernel
unfolding clear_pipeline load_addr load_cache_line load_value
store_64byte_clwb addr = record {
  before = (load_addr addr) ++ (load_value value_word) ++ load_cache_line ++ clear_pipeline;
  timed =
      Instr.vmovdqa_store 4 0 (at (0 * 32))
      ∷ Instr.vmovdqa_store 4 0 (at (1 * 32))
      ∷ Instr.clwb (at 0)
      ∷ [];
}

unfoldable pub store_64byte_clflushopt : Kernel
unfolding clear_pipeline load_addr load_cache_line load_value
store_64byte_clflushopt addr = record {
  before = (load_addr addr) ++ (load_value value_word) ++ load_cache_line ++ clear_pipeline;
  timed =
      Instr.vmovdqa_store 4 0 (at (0 * 32))
      ∷ Instr.vmovdqa_store 4 0 (at (1 * 32))
      ∷ Instr.clflushopt (at 0)
      ∷ [];
}

unfoldable pub nstore_64byte_fence : Kernel
unfolding clear_pipeline flush_cache_line load_addr load_value
nstore_64byte_fence addr = record {
  before = (load_addr addr) ++ (load_value value_word) ++ flush_cache_line ++ clear_pipeline;
  timed = Instr.vmovnt_store 4 0 (at (0 * 32)) ∷ Instr.vmovnt_store 4 0 (at (1 * 32)) ∷ [];
}

unfoldable pub load_64byte_fence : Kernel
unfolding clear_pipeline flush_cache_line load_addr
load_64byte_fence addr = record {
  before = (load_addr addr) ++ flush_cache_line ++ clear_pipeline;
  timed = Instr.vmovdqa_load 4 (at (0 * 32)) 0 ∷ Instr.vmovdqa_load 4 (at (1 * 32)) 1 ∷ [];
}

unfoldable pub load_64byte_fence_nt : Kernel
unfolding clear_pipeline flush_cache_line load_addr
load_64byte_fence_nt addr = record {
  before = (load_addr addr) ++ flush_cache_line ++ clear_pipeline;
  timed = Instr.vmovntdqa 4 (at (0 * 32)) 0 ∷ Instr.vmovntdqa 4 (at (1 * 32)) 1 ∷ [];
}

unfoldable pub baseline : Kernel
unfolding clear_pipeline
baseline addr = record { before = clear_pipeline; timed = [] }

unfoldable pub store_64byte_fence_movq : Kernel
unfolding clear_pipeline load_addr load_cache_line
store_64byte_fence_movq addr = record {
  before = (load_addr addr) ++ load_cache_line ++ clear_pipeline;
  timed =
      Instr.movq_store Reg.rdx (at (0 * 8))
      ∷ Instr.movq_store Reg.rdx (at (1 * 8))
      ∷ Instr.movq_store Reg.rdx (at (2 * 8))
      ∷ Instr.movq_store Reg.rdx (at (3 * 8))
      ∷ Instr.movq_store Reg.rdx (at (4 * 8))
      ∷ Instr.movq_store Reg.rdx (at (5 * 8))
      ∷ Instr.movq_store Reg.rdx (at (6 * 8))
      ∷ Instr.movq_store Reg.rdx (at (7 * 8))
      ∷ [];
}

unfoldable pub store_64byte_clflush_movq : Kernel
unfolding clear_pipeline load_addr load_cache_line
store_64byte_clflush_movq addr = record {
  before = (load_addr addr) ++ load_cache_line ++ clear_pipeline;
  timed =
      Instr.movq_store Reg.rdx (at (0 * 8))
      ∷ Instr.movq_store Reg.rdx (at (1 * 8))
      ∷ Instr.movq_store Reg.rdx (at (2 * 8))
      ∷ Instr.movq_store Reg.rdx (at (3 * 8))
      ∷ Instr.movq_store Reg.rdx (at (4 * 8))
      ∷ Instr.movq_store Reg.rdx (at (5 * 8))
      ∷ Instr.movq_store Reg.rdx (at (6 * 8))
      ∷ Instr.movq_store Reg.rdx (at (7 * 8))
      ∷ Instr.clflush (at 0)
      ∷ [];
}

unfoldable pub load_64byte_fence_movq : Kernel
unfolding clear_pipeline flush_cache_line load_addr
load_64byte_fence_movq addr = record {
  before = (load_addr addr) ++ flush_cache_line ++ clear_pipeline;
  timed =
      Instr.movq_load (at (0 * 8)) Reg.rdx
      ∷ Instr.movq_load (at (1 * 8)) Reg.rdx
      ∷ Instr.movq_load (at (2 * 8)) Reg.rdx
      ∷ Instr.movq_load (at (3 * 8)) Reg.rdx
      ∷ Instr.movq_load (at (4 * 8)) Reg.rdx
      ∷ Instr.movq_load (at (5 * 8)) Reg.rdx
      ∷ Instr.movq_load (at (6 * 8)) Reg.rdx
      ∷ Instr.movq_load (at (7 * 8)) Reg.rdx
      ∷ [];
}
