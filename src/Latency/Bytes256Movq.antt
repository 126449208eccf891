-- ===== src/Latency/Bytes256Movq.antt =====
-- The 256-byte kernels of OptaneStudy/src/common.h over 8-byte moves.
use rw_sep.Prelude.{[], ◌∷◌, ◌++◌, ◌*◌}
use rw_sep.Machine.{Instr, Reg}
use rw_sep.Latency.Macros.{Kernel, at, load_addr, load_cache_line, flush_cache_line, clear_pipeline}

unfoldable pub store_256byte_fence_movq : Kernel
unfolding clear_pipeline load_addr load_cache_line
store_256byte_fence_movq addr = record {
  before = (load_addr addr) ++ load_cache_line ++ clear_pipeline;
  timed =
      Instr.movq_store Reg.rdx (at (0 * 8))
      ∷ Instr.movq_store Reg.rdx (at (1 * 8))
      ∷ Instr.movq_store Reg.rdx (at (2 * 8))
      ∷ Instr.movq_store Reg.rdx (at (3 * 8))
      ∷ Instr.movq_store Reg.rdx (at (4 * 8))
      ∷ Instr.movq_store Reg.rdx (at (5 * 8))
      ∷ Instr.movq_store Reg.rdx (at (6 * 8))
      ∷ Instr.movq_store Reg.rdx (at (7 * 8))
      ∷ Instr.movq_store Reg.rdx (at (8 * 8))
      ∷ Instr.movq_store Reg.rdx (at (9 * 8))
      ∷ Instr.movq_store Reg.rdx (at (10 * 8))
      ∷ Instr.movq_store Reg.rdx (at (11 * 8))
      ∷ Instr.movq_store Reg.rdx (at (12 * 8))
      ∷ Instr.movq_store Reg.rdx (at (13 * 8))
      ∷ Instr.movq_store Reg.rdx (at (14 * 8))
      ∷ Instr.movq_store Reg.rdx (at (15 * 8))
      ∷ Instr.movq_store Reg.rdx (at (16 * 8))
      ∷ Instr.movq_store Reg.rdx (at (17 * 8))
      ∷ Instr.movq_store Reg.rdx (at (18 * 8))
      ∷ Instr.movq_store Reg.rdx (at (19 * 8))
      ∷ Instr.movq_store Reg.rdx (at (20 * 8))
      ∷ Instr.movq_store Reg.rdx (at (21 * 8))
      ∷ Instr.movq_store Reg.rdx (at (22 * 8))
      ∷ Instr.movq_store Reg.rdx (at (23 * 8))
      ∷ Instr.movq_store Reg.rdx (at (24 * 8))
      ∷ Instr.movq_store Reg.rdx (at (25 * 8))
      ∷ Instr.movq_store Reg.rdx (at (26 * 8))
      ∷ Instr.movq_store Reg.rdx (at (27 * 8))
      ∷ Instr.movq_store Reg.rdx (at (28 * 8))
      ∷ Instr.movq_store Reg.rdx (at (29 * 8))
      ∷ Instr.movq_store Reg.rdx (at (30 * 8))
      ∷ Instr.movq_store Reg.rdx (at (31 * 8))
      ∷ [];
}

unfoldable pub store_256byte_clflush_movq : Kernel
unfolding clear_pipeline load_addr load_cache_line
store_256byte_clflush_movq addr = record {
  before = (load_addr addr) ++ load_cache_line ++ clear_pipeline;
  timed =
      Instr.movq_store Reg.rdx (at (0 * 8))
      ∷ Instr.movq_store Reg.rdx (at (1 * 8))
      ∷ Instr.movq_store Reg.rdx (at (2 * 8))
      ∷ Instr.movq_store Reg.rdx (at (3 * 8))
      ∷ Instr.movq_store Reg.rdx (at (4 * 8))
      ∷ Instr.movq_store Reg.rdx (at (5 * 8))
      ∷ Instr.movq_store Reg.rdx (at (6 * 8))
      ∷ Instr.movq_store Reg.rdx (at (7 * 8))
      ∷ Instr.clflush (at (0 * 8))
      ∷ Instr.movq_store Reg.rdx (at (8 * 8))
      ∷ Instr.movq_store Reg.rdx (at (9 * 8))
      ∷ Instr.movq_store Reg.rdx (at (10 * 8))
      ∷ Instr.movq_store Reg.rdx (at (11 * 8))
      ∷ Instr.movq_store Reg.rdx (at (12 * 8))
      ∷ Instr.movq_store Reg.rdx (at (13 * 8))
      ∷ Instr.movq_store Reg.rdx (at (14 * 8))
      ∷ Instr.movq_store Reg.rdx (at (15 * 8))
      ∷ Instr.clflush (at (8 * 8))
      ∷ Instr.movq_store Reg.rdx (at (16 * 8))
      ∷ Instr.movq_store Reg.rdx (at (17 * 8))
      ∷ Instr.movq_store Reg.rdx (at (18 * 8))
      ∷ Instr.movq_store Reg.rdx (at (19 * 8))
      ∷ Instr.movq_store Reg.rdx (at (20 * 8))
      ∷ Instr.movq_store Reg.rdx (at (21 * 8))
      ∷ Instr.movq_store Reg.rdx (at (22 * 8))
      ∷ Instr.movq_store Reg.rdx (at (23 * 8))
      ∷ Instr.clflush (at (16 * 8))
      ∷ Instr.movq_store Reg.rdx (at (24 * 8))
      ∷ Instr.movq_store Reg.rdx (at (25 * 8))
      ∷ Instr.movq_store Reg.rdx (at (26 * 8))
      ∷ Instr.movq_store Reg.rdx (at (27 * 8))
      ∷ Instr.movq_store Reg.rdx (at (28 * 8))
      ∷ Instr.movq_store Reg.rdx (at (29 * 8))
      ∷ Instr.movq_store Reg.rdx (at (30 * 8))
      ∷ Instr.movq_store Reg.rdx (at (31 * 8))
      ∷ Instr.clflush (at (24 * 8))
      ∷ [];
}

unfoldable pub load_256byte_fence_movq : Kernel
unfolding clear_pipeline flush_cache_line load_addr
load_256byte_fence_movq addr = record {
  before = (load_addr addr) ++ flush_cache_line ++ clear_pipeline;
  timed =
      Instr.movq_load (at (0 * 8)) Reg.rdx
      ∷ Instr.movq_load (at (1 * 8)) Reg.rdx
      ∷ Instr.movq_load (at (2 * 8)) Reg.rdx
      ∷ Instr.movq_load (at (3 * 8)) Reg.rdx
      ∷ Instr.movq_load (at (4 * 8)) Reg.rdx
      ∷ Instr.movq_load (at (5 * 8)) Reg.rdx
      ∷ Instr.movq_load (at (6 * 8)) Reg.rdx
      ∷ Instr.movq_load (at (7 * 8)) Reg.rdx
      ∷ Instr.movq_load (at (8 * 8)) Reg.rdx
      ∷ Instr.movq_load (at (9 * 8)) Reg.rdx
      ∷ Instr.movq_load (at (10 * 8)) Reg.rdx
      ∷ Instr.movq_load (at (11 * 8)) Reg.rdx
      ∷ Instr.movq_load (at (12 * 8)) Reg.rdx
      ∷ Instr.movq_load (at (13 * 8)) Reg.rdx
      ∷ Instr.movq_load (at (14 * 8)) Reg.rdx
      ∷ Instr.movq_load (at (15 * 8)) Reg.rdx
      ∷ Instr.movq_load (at (16 * 8)) Reg.rdx
      ∷ Instr.movq_load (at (17 * 8)) Reg.rdx
      ∷ Instr.movq_load (at (18 * 8)) Reg.rdx
      ∷ Instr.movq_load (at (19 * 8)) Reg.rdx
      ∷ Instr.movq_load (at (20 * 8)) Reg.rdx
      ∷ Instr.movq_load (at (21 * 8)) Reg.rdx
      ∷ Instr.movq_load (at (22 * 8)) Reg.rdx
      ∷ Instr.movq_load (at (23 * 8)) Reg.rdx
      ∷ Instr.movq_load (at (24 * 8)) Reg.rdx
      ∷ Instr.movq_load (at (25 * 8)) Reg.rdx
      ∷ Instr.movq_load (at (26 * 8)) Reg.rdx
      ∷ Instr.movq_load (at (27 * 8)) Reg.rdx
      ∷ Instr.movq_load (at (28 * 8)) Reg.rdx
      ∷ Instr.movq_load (at (29 * 8)) Reg.rdx
      ∷ Instr.movq_load (at (30 * 8)) Reg.rdx
      ∷ Instr.movq_load (at (31 * 8)) Reg.rdx
      ∷ [];
}
