-- ===== src/Examples/Multithread.antt =====
-- The theorems on OptaneStudy/microbenchmark/rw_sep_multithread.cpp at concrete inputs.
use rw_sep.Prelude.{◌≡◌, refl, inl, [], ◌∷◌, ◌++◌, map, List, some, replicate, arith}
use rw_sep.Machine.{Event}
use rw_sep.Memaccess.Rounds.{Traces}
use rw_sep.Afterwrite.Order.{choose}
use rw_sep.Multithread.{set_arg}
use rw_sep.Multithread.Interleaved.{Merge, Interleaving}
use rw_sep.Multithread.Threads.{
  Thread, Role, foo_of, touching, trace_of, traces_of, run_thread, threads_keep_order,
}
use rw_sep.Fastalloc.Disjoint.{Separate}
use rw_sep.Multithread.Buffers.{Buffers, init, count, stride_size}
use rw_sep.Multithread.Buffers.Apart.{buffer, init-Separate}
use rw_sep.Examples.{boot, in_a_row, in_a_row-IsSystem}

abbrev writer : Thread
writer = record { role = Role.storeclwb; buf = 4096 }

abbrev reader : Thread
reader = record { role = Role.nt; buf = 8192 }

-- One after the other.
all_left : (es : List Event) → Merge es [] es
all_left [] = Merge.done
all_left (e ∷ es) = Merge.left e (all_left es)

in_turn : (es fs : List Event) → Merge es fs (es ++ fs)
in_turn [] [] = Merge.done
in_turn [] (f ∷ fs) = Merge.right f (in_turn [] fs)
in_turn (e ∷ es) fs = Merge.left e (in_turn es fs)

abbrev both : List Event
both = trace_of 4 writer ++ trace_of 4 reader

both-Interleaving : Interleaving (traces_of 4 (writer ∷ reader ∷ [])) both
both-Interleaving =
    Interleaving.one_thread
      (Interleaving.one_thread Interleaving.no_thread (all_left (trace_of 4 reader)))
      (in_turn (trace_of 4 writer) (trace_of 4 reader))

threads_keep_order_example :
    (set_arg 64 64 200 4 (4096 ∷ 8192 ∷ []) ≡ map (foo_of 4) (4096 ∷ 8192 ∷ []))
    × Traces (run_thread 300 4 writer boot) boot (trace_of 4 writer)
    × (choose (touching 65) both ≡ choose (touching 65) (trace_of 4 writer))
threads_keep_order_example =
    threads_keep_order 300 4 65 [] writer (reader ∷ []) both (4096 ∷ 8192 ∷ []) boot (omega arith)
      (omega arith) (omega arith) (omega arith) both-Interleaving tt
      (record { aligned = refl; room = omega arith; outside = inl (omega arith) }, tt)

init-Separate_example :
    (b : Buffers) × (init in_a_row (replicate 100 0) 0 2 3 count stride_size ≡ some b)
    × Separate (map buffer (b.buf_sep1 ++ b.buf_sep2))
    × (b.alloc1.files
        ≡ record { channel = 2; numbers = 0 ∷ [] } ∷ record { channel = 2; numbers = 1 ∷ [] } ∷ [])
    × (b.alloc2.files
        ≡ record { channel = 3; numbers = 0 ∷ [] } ∷ record { channel = 3; numbers = 1 ∷ [] } ∷ [])
init-Separate_example =
    init-Separate in_a_row 11 in_a_row-IsSystem (replicate 100 0) 0 2 3 (omega arith) (omega arith)
      (omega arith)
