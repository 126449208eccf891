-- ===== src/Latency/Labels.antt =====
-- The names in `latency_tasks_str` and `latency_bench_map` of OptaneStudy/src/common.h, as built
-- without AEP_SUPPORTED, against what the kernels in its tables do.
use Prim.Native.String.{String, ◌++◌}
use mathlib.Core.List
use rw_sep.Prelude.{ℕ, zero, suc, ◌+◌, ◌*◌, List, [], ◌∷◌, ◌≡◌, refl, map, ◌==◌, if◌then◌else◌}
use rw_sep.Machine.{Event, Cpu, add64, run}
use rw_sep.Latency.Macros.{Kernel, call}
use rw_sep.Latency.Tables.{
  bench_func, latency_funcs_64byte, latency_funcs_128byte, latency_funcs_256byte,
}
use rw_sep.Latency.Tasks.{window}

unfoldable pub latency_tasks_str : List String
latency_tasks_str =
    "load-fence-64" ∷ "ntload-fence-64" ∷ "store-fence-64" ∷ "store-clflush-64" ∷ "nstore-fence-64"
    ∷ "store-fence-movq-64" ∷ "store-clflush-movq-64" ∷ "load-fence-movq-64" ∷ "load-fence-128"
    ∷ "ntload-fence-128" ∷ "store-fence-128" ∷ "store-clflush-128" ∷ "nstore-fence-128"
    ∷ "store-fence-movq-128" ∷ "store-clflush-movq-128" ∷ "load-fence-movq-128" ∷ "load-fence-256"
    ∷ "ntload-fence-256" ∷ "store-fence-256" ∷ "store-clflush-256" ∷ "nstore-fence-256"
    ∷ "store-fence-movq-256" ∷ "store-clflush-movq-256" ∷ "load-fence-movq-256" ∷ "baseline" ∷ []

-- `latency_bench_map`.
unfoldable pub latency_bench_map : List String
latency_bench_map =
    "load-fence" ∷ "ntload-fence" ∷ "store-fence" ∷ "store-clflush" ∷ "store-clwb"
    ∷ "store-clflushopt" ∷ "nstore-fence" ∷ "store-fence-movq" ∷ "store-clflush-movq"
    ∷ "load-fence-movq" ∷ "baseline" ∷ []

-- The parts of a name: the kind of the accesses, how their lines are flushed (a fence alone leaves
-- them), and whether a register of 32 bytes is accessed at a time or, with `movq`, a word.
pub data Kind : Type 0 where
  load ntload store nstore : Kind

pub data Flush : Type 0 where
  fence clflush clwb clflushopt : Flush

pub data Width : Type 0 where
  register movq : Width

pub data Name : Type 0 where
  accesses : Kind → Flush → Width → Name
  baseline : Name

abbrev kind_word : Kind → String
kind_word Kind.load = "load"
kind_word Kind.ntload = "ntload"
kind_word Kind.store = "store"
kind_word Kind.nstore = "nstore"

abbrev flush_word : Flush → String
flush_word Flush.fence = "-fence"
flush_word Flush.clflush = "-clflush"
flush_word Flush.clwb = "-clwb"
flush_word Flush.clflushopt = "-clflushopt"

abbrev width_word : Width → String
width_word Width.register = ""
width_word Width.movq = "-movq"

abbrev pub spelled : Name → String
spelled (Name.accesses k f w) = kind_word k ++ (flush_word f ++ width_word w)
spelled Name.baseline = "baseline"

-- With the number of bytes, for a number of 64-byte lines.
abbrev size_word : ℕ → String
size_word lines = if lines == 1 then "-64" else if lines == 2 then "-128" else "-256"

abbrev pub sized : Name × ℕ → String
sized (Name.accesses k f w, lines) = spelled (Name.accesses k f w) ++ size_word lines
sized (Name.baseline, lines) = "baseline"

abbrev pub bytes : Width → ℕ
bytes Width.register = 32
bytes Width.movq = 8

abbrev pub access : Kind → (address bytes : ℕ) → Event
access Kind.load a n = Event.load a n
access Kind.ntload a n = Event.nt_load a n
access Kind.store a n = Event.store a n
access Kind.nstore a n = Event.nt_store a n

abbrev pub flush : Flush → (address : ℕ) → List Event
flush Flush.fence a = []
flush Flush.clflush a = Event.clflush a ∷ []
flush Flush.clwb a = Event.clwb a ∷ []
flush Flush.clflushopt a = Event.clflushopt a ∷ []

-- The pieces of the line at `addr + at`, from piece `i` on, and then its flush.
abbrev pub line_from : Kind → Flush → Width → (addr at i left : ℕ) → List Event
line_from k f w addr at i zero = flush f (add64 addr at)
line_from k f w addr at i (suc left) =
    access k (add64 addr (at + bytes w * i)) (bytes w) ∷ line_from k f w addr at (i + 1) left

abbrev pub per_line : Width → ℕ
per_line Width.register = 2
per_line Width.movq = 8

abbrev pub lines_from : Kind → Flush → Width → (addr l left : ℕ) → List Event
lines_from k f w addr l zero = Event.mfence ∷ []
lines_from k f w addr l (suc left) =
    List.◌++◌ (line_from k f w addr (64 * l) 0 (per_line w)) (lines_from k f w addr (l + 1) left)

-- What a name promises between the readings of the counter, for a number of 64-byte lines.
abbrev pub promised : Name → (lines addr : ℕ) → List Event
promised (Name.accesses k f w) lines addr = Event.lfence ∷ lines_from k f w addr 0 lines
promised Name.baseline lines addr = Event.lfence ∷ Event.mfence ∷ []

-- The rows of `latency_bench_map`.
abbrev pub bench_names : List Name
bench_names =
    Name.accesses Kind.load Flush.fence Width.register
    ∷ Name.accesses Kind.ntload Flush.fence Width.register
    ∷ Name.accesses Kind.store Flush.fence Width.register
    ∷ Name.accesses Kind.store Flush.clflush Width.register
    ∷ Name.accesses Kind.store Flush.clwb Width.register
    ∷ Name.accesses Kind.store Flush.clflushopt Width.register
    ∷ Name.accesses Kind.nstore Flush.fence Width.register
    ∷ Name.accesses Kind.store Flush.fence Width.movq
    ∷ Name.accesses Kind.store Flush.clflush Width.movq
    ∷ Name.accesses Kind.load Flush.fence Width.movq
    ∷ Name.baseline
    ∷ []

-- The rows of `latency_tasks_str`, which has no clwb or clflushopt, for one size.
abbrev pub task_names : (lines : ℕ) → List (Name × ℕ) → List (Name × ℕ)
task_names lines more =
    (Name.accesses Kind.load Flush.fence Width.register, lines)
    ∷ (Name.accesses Kind.ntload Flush.fence Width.register, lines)
    ∷ (Name.accesses Kind.store Flush.fence Width.register, lines)
    ∷ (Name.accesses Kind.store Flush.clflush Width.register, lines)
    ∷ (Name.accesses Kind.nstore Flush.fence Width.register, lines)
    ∷ (Name.accesses Kind.store Flush.fence Width.movq, lines)
    ∷ (Name.accesses Kind.store Flush.clflush Width.movq, lines)
    ∷ (Name.accesses Kind.load Flush.fence Width.movq, lines)
    ∷ more

abbrev pub all_tasks : List (Name × ℕ)
all_tasks = task_names 1 (task_names 2 (task_names 4 ((Name.baseline, 0) ∷ [])))

-- What a kernel does between the readings of the counter.
abbrev pub timed : ℕ → Cpu → Kernel → List Event
timed addr c k = window (call (k addr) (record c { trace = [] })).1.trace

pub tasks_keep :
    (addr : ℕ) (c : Cpu)
    → map (timed addr c) bench_func ≡ map (λ t. promised t.0 t.1 addr) all_tasks
unfolding bench_func window call run
tasks_keep addr c = refl

pub kinds_keep_64 :
    (addr : ℕ) (c : Cpu)
    → map (timed addr c) latency_funcs_64byte ≡ map (λ n. promised n 1 addr) bench_names
unfolding latency_funcs_64byte window call run
kinds_keep_64 addr c = refl

pub kinds_keep_128 :
    (addr : ℕ) (c : Cpu)
    → map (timed addr c) latency_funcs_128byte ≡ map (λ n. promised n 2 addr) bench_names
unfolding latency_funcs_128byte window call run
kinds_keep_128 addr c = refl

pub kinds_keep_256 :
    (addr : ℕ) (c : Cpu)
    → map (timed addr c) latency_funcs_256byte ≡ map (λ n. promised n 4 addr) bench_names
unfolding latency_funcs_256byte window call run
kinds_keep_256 addr c = refl

pub tasks_spelled : latency_tasks_str ≡ map sized all_tasks
unfolding latency_tasks_str
tasks_spelled = refl

pub kinds_spelled : latency_bench_map ≡ map spelled bench_names
unfolding latency_bench_map
kinds_spelled = refl
