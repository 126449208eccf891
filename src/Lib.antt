-- ===== src/Lib.antt =====
-- A study of Intel Optane persistent memory: benchmarks that separate reads from writes, the kernels
-- in assembly that they time, and the allocator that gives them memory.
--
-- The program's parts:
--  * OptaneStudy/src/common.h: kernels that time one access of 64, 128 or 256 bytes between two
--    readings of the time-stamp counter, and the tables in which a job finds them;
--  * OptaneStudy/src/memaccess.h and memaccess.c: access macros, and loops over them: strides, random
--    and sequential accesses, probes, and pointer chasing over an index drawn at random;
--  * fastallocate/fastalloc.cpp: a bump allocator over regions of DRAM and of persistent memory, with
--    a near copy in pm_study/ and a variant in OptaneStudy/src/;
--  * the benchmark programs, which allocate, call the kernels, and print what they took.
--
-- The files:
--  * Machine is the processor: registers, memory in 64-bit words, a time-stamp counter, and the
--    instructions that the kernels use (`exec`, `run`). Each access, flush and fence is recorded in
--    `trace`. Machine/Persist tells from a trace which cache lines are durable, and Machine/Faults
--    whether an access was at an address where its instruction faults (`NoFault`).
--  * Latency models common.h: Latency/Macros its macros and the C function round the assembly (`call`),
--    Latency/Bytes64, Bytes128, Bytes256 and Bytes256Movq its kernels by size, Latency/Tables its
--    tables. Latency/Timing and Latency/Tasks hold the proofs; Latency/Labels has the names of the
--    tasks, and Latency/Saved what they tell, with Latency/Settled and Stained on which lines are
--    durable.
--  * Memaccess/Macros models memaccess.h, and Memaccess/Stride the stride kernels of memaccess.c, a
--    loop over the instructions of its body each. Memaccess/Advance, Rounds and Traces carry the
--    loop invariants; Memaccess/Kernels, Durable and Volatile state what the kernels do.
--    Memaccess/Random models the `sizebw_` kernels and their shift register `RandLFSR64`, and
--    Memaccess/Sequential the `seq_` kernels. Memaccess/Chase models the walks over an index, and
--    Memaccess/Probes `cachefence`, `cacheprobe` and `imcprobe`.
--  * Chasing models `get_rand` and `init_chasing_index` of memaccess.c, with `rdrand` as a parameter.
--  * Fastalloc models the allocator of fastallocate/, with the regions that the system hands out as a
--    parameter; what they promise is `IsSystem` of Fastalloc/Blocks. Fastalloc/Globals has the global
--    pointers and the functions on them, and `init_fast_allocator` of the copy in pm_study/.
--  * Channels models the allocator of OptaneStudy/src/fastalloc.cpp, which maps files of one channel:
--    Channels/Pointers compares it with Fastalloc, Channels/Files says which files it maps.
--  * Afterwrite models OptaneStudy/microbenchmark/read_after_write.cpp, on the kernels of Memaccess and
--    the allocators of Channels: `init`, one definition for each kind of task, and TIMEDIFF.
--    Afterwrite/Job is the whole job.
--  * Multithread models the thread functions of OptaneStudy/microbenchmark/rw_sep_multithread.cpp and
--    `set_arg`; Multithread/Interleaved is about the interleavings of traces. Multithread/Schedule has
--    the programs by which the tasks create and join their threads, and schedules of their steps;
--    Multithread/Buffers has `init`.
--  * LatencyJob models the statistics of OptaneStudy/microbenchmark/latency_job.c, with what a kernel
--    returns as a parameter. Lists models pmdk/lists.c, with the lists of libpmemobj as a parameter.
--  * Pmemcopy models `main` of pmdk/rw_sep.c, with the system calls and libpmem as a parameter.
--  * Separation models the two tasks of fastallocate/rw_sep.cpp and the sweep that repeats them.
--  * Traverse models the worker of pm_study/microbenchmark/lat.cpp: Traverse/Ring and Visits follow its
--    pointers, Traverse/Strict is about its methods of writing. Traverse/Runs has the iterations, the
--    shares of the threads, the runs of `access_lat`, and `main`.
--  * Prelude has what the parts share: tests, lists, loops on fuel, bits. Examples has the theorems at
--    concrete inputs.
--
-- Loops of the assembly run on fuel, the number of rounds at most. Fuel above the lengths and counts of
-- a kernel is enough for its loops, since each round advances by one step or more. The tries of
-- `init_chasing_index` have fuel of their own, since no number of draws is certain to find a free
-- position. The chase of Traverse has fuel for one visit more than it makes, which the number of units
-- gives. Threads are interleavings of their accesses, in one order for all processors;
-- creating a thread succeeds. Loops of read_after_write.cpp that count in an `int` end in undefined
-- behaviour when it overflows (`inc_int`); the units and iterations of lat.cpp, which are counted in
-- one too, are taken to be fewer than 2 ^ 31. A kernel ends here also where a vector access is not
-- aligned, which a processor does not carry out: that no access is such is said by `NoFault`.
--
-- Not modelled: of the benchmark programs, the clock, the printing, the walk of `flush_cache` over a
-- buffer of its own and the computations in floating point; what in the copy of fastallocate/fastalloc.cpp
-- in pm_study/ has the same text; the headers of a kernel module that is not in the repository.
-- Of the instructions, flags other than for a jump, and caches other than for durability.
pub mod Prelude
pub mod Machine
pub mod Latency
pub mod LatencyJob
pub mod Lists
pub mod Pmemcopy
pub mod Memaccess
pub mod Chasing
pub mod Fastalloc
pub mod Channels
pub mod Afterwrite
pub mod Multithread
pub mod Separation
pub mod Traverse
mod Examples
