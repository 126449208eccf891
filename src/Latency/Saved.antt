-- ===== src/Latency/Saved.antt =====
-- What the names of the kernels of OptaneStudy/src/common.h promise, and what this means for
-- durability by the rules of Machine/Persist.
use mathlib.Core.Path.{subst}
use rw_sep.Prelude.{ℕ, ◌*◌, ◌≡◌, List, [], ◌∷◌, map, sym, arith}
use rw_sep.Machine.{Event, Cpu}
use rw_sep.Machine.Faults.{IsAligned}
use rw_sep.Machine.Persist.{Lines, effects, NoDirty, Durable}
use rw_sep.Memaccess.Durable.{mfence-Durable}
use rw_sep.Latency.Macros.{Kernel}
use rw_sep.Latency.Tables.{
  bench_func, latency_funcs_64byte, latency_funcs_128byte, latency_funcs_256byte,
}
use rw_sep.Latency.Labels.{
  latency_tasks_str, latency_bench_map, spelled, sized, bench_names, all_tasks, timed,
  tasks_spelled, kinds_spelled, tasks_keep, kinds_keep_64, kinds_keep_128, kinds_keep_256, Kind,
  Flush, Width, Name, per_line, line_from, lines_from, promised,
}
use rw_sep.Latency.Settled.{
  Flushes, Passes, line_from-NoDirty, fenced_line-NoDirty, lines_from-Durable,
}
use rw_sep.Latency.Stained.{AllDirty, stored_lines-AllDirty}

-- What a name says of the lines, for a kernel of `lines` lines: `store-fence` leaves them dirty, and
-- every other name says that nothing is left to be lost.
abbrev pub Fate : Name → (lines addr : ℕ) → Lines → Type 0
Fate (Name.accesses Kind.load f w) lines addr ls = Durable ls
Fate (Name.accesses Kind.ntload f w) lines addr ls = Durable ls
Fate (Name.accesses Kind.nstore f w) lines addr ls = Durable ls
Fate (Name.accesses Kind.store Flush.fence w) lines addr ls = AllDirty addr 0 lines ls
Fate (Name.accesses Kind.store Flush.clflush w) lines addr ls = Durable ls
Fate (Name.accesses Kind.store Flush.clwb w) lines addr ls = Durable ls
Fate (Name.accesses Kind.store Flush.clflushopt w) lines addr ls = Durable ls
Fate Name.baseline lines addr ls = Durable ls

plain_line-NoDirty :
    (k : Kind) (f : Flush) (w : Width) (addr l : ℕ) (ls : Lines)
    → IsAligned addr
    → Passes k
    → NoDirty ls
    → NoDirty (effects (line_from k f w addr (64 * l) 0 (per_line w)) ls)
plain_line-NoDirty k Flush.fence w addr l ls al is h =
    fenced_line-NoDirty k w addr (64 * l) is (per_line w) 0 ls h
plain_line-NoDirty k Flush.clflush w addr l ls al is h =
    line_from-NoDirty k Flush.clflush w addr l al tt (per_line w) 0 ls (omega arith) (λ y ne. h y)
plain_line-NoDirty k Flush.clwb w addr l ls al is h =
    line_from-NoDirty k Flush.clwb w addr l al tt (per_line w) 0 ls (omega arith) (λ y ne. h y)
plain_line-NoDirty k Flush.clflushopt w addr l ls al is h =
    line_from-NoDirty k Flush.clflushopt w addr l al tt (per_line w) 0 ls (omega arith)
      (λ y ne. h y)

flushed_lines-Durable :
    (f : Flush) (w : Width) (addr lines : ℕ) (ls : Lines)
    → IsAligned addr
    → Flushes f
    → NoDirty ls
    → Durable (effects (lines_from Kind.store f w addr 0 lines) ls)
flushed_lines-Durable f w addr lines ls al is =
    lines_from-Durable Kind.store f w addr
      (λ l ms h.
        line_from-NoDirty Kind.store f w addr l al is (per_line w) 0 ms (omega arith) (λ y ne. h y))
      lines 0 ls

plain_lines-Durable :
    (k : Kind) (f : Flush) (w : Width) (addr lines : ℕ) (ls : Lines)
    → IsAligned addr
    → Passes k
    → NoDirty ls
    → Durable (effects (lines_from k f w addr 0 lines) ls)
plain_lines-Durable k f w addr lines ls al is =
    lines_from-Durable k f w addr (λ l ms h. plain_line-NoDirty k f w addr l ms al is h) lines 0 ls

pub promised-Fate :
    (n : Name) (lines addr : ℕ) (ls : Lines)
    → IsAligned addr
    → NoDirty ls
    → Fate n lines addr (effects (promised n lines addr) ls)
unfolding effects
promised-Fate (Name.accesses Kind.load f w) lines addr ls al h =
    plain_lines-Durable Kind.load f w addr lines ls al tt h
promised-Fate (Name.accesses Kind.ntload f w) lines addr ls al h =
    plain_lines-Durable Kind.ntload f w addr lines ls al tt h
promised-Fate (Name.accesses Kind.nstore f w) lines addr ls al h =
    plain_lines-Durable Kind.nstore f w addr lines ls al tt h
promised-Fate (Name.accesses Kind.store Flush.fence w) lines addr ls al h =
    stored_lines-AllDirty w addr lines 0 ls al
promised-Fate (Name.accesses Kind.store Flush.clflush w) lines addr ls al h =
    flushed_lines-Durable Flush.clflush w addr lines ls al tt h
promised-Fate (Name.accesses Kind.store Flush.clwb w) lines addr ls al h =
    flushed_lines-Durable Flush.clwb w addr lines ls al tt h
promised-Fate (Name.accesses Kind.store Flush.clflushopt w) lines addr ls al h =
    flushed_lines-Durable Flush.clflushopt w addr lines ls al tt h
promised-Fate Name.baseline lines addr ls al h = mfence-Durable ls h

-- The fates that a list of descriptions tells of as many lists of events.
abbrev pub Fates : (addr : ℕ) → Lines → List (Name × ℕ) → List (List Event) → Type 0
Fates addr ls [] [] = Unit
Fates addr ls (t ∷ ts) (es ∷ more) = Fate t.0 t.1 addr (effects es ls) × Fates addr ls ts more
Fates addr ls [] (es ∷ more) = ⊥
Fates addr ls (t ∷ ts) [] = ⊥

promised-Fates :
    (addr : ℕ) (ls : Lines) (ts : List (Name × ℕ))
    → IsAligned addr
    → NoDirty ls
    → Fates addr ls ts (map (λ t. promised t.0 t.1 addr) ts)
promised-Fates addr ls [] al h = tt
promised-Fates addr ls (t ∷ ts) al h =
    (promised-Fate t.0 t.1 addr ls al h, promised-Fates addr ls ts al h)

-- The rows of one table, whose kernels have `lines` lines.
abbrev pub of_size : ℕ → List (Name × ℕ)
of_size lines = map (λ n. (n, lines)) bench_names

-- The kernels of a table keep the promises of its names, and the lines meet their fates.
abbrev pub Tells : (addr : ℕ) → Cpu → Lines → List (Name × ℕ) → List Kernel → Type 0
Tells addr c ls ts ks =
    (map (timed addr c) ks ≡ map (λ t. promised t.0 t.1 addr) ts)
    × Fates addr ls ts (map (timed addr c) ks)

kept-Tells :
    (addr : ℕ) (c : Cpu) (ls : Lines) (ts : List (Name × ℕ)) (ks : List Kernel)
    → IsAligned addr
    → NoDirty ls
    → map (timed addr c) ks ≡ map (λ t. promised t.0 t.1 addr) ts
    → Tells addr c ls ts ks
kept-Tells addr c ls ts ks al h kept =
    (kept, subst (Fates addr ls ts) (sym kept) (promised-Fates addr ls ts al h))

-- At an address that is a multiple of 64, the names tell exactly what the kernels do between the
-- readings of the counter, and what becomes of the data. The names of `latency_tasks_str` and the
-- kernels of `bench_func`, as many as these, go with one list of descriptions, and those of
-- `latency_bench_map` and of the three tables by size with another: each name spells its
-- description, and the events of each kernel are those that the description promises and no other,
-- in this order: a load fence; for each 64-byte line from the address up, as many as the name or
-- the table says, the pieces of this line in ascending order, each accessed in the way that the
-- name says, and then the flush of this line, if the name has one; and a memory fence. The baseline
-- only has the fences. If no line was dirty before, these events leave each of its lines dirty for
-- a kernel that is named `store-fence`, and every line durable for any other.
pub names_tell :
    (addr : ℕ) (c : Cpu) (ls : Lines)
    → IsAligned addr
    → NoDirty ls
    → (latency_tasks_str ≡ map sized all_tasks)
      × Tells addr c ls all_tasks bench_func
      × (latency_bench_map ≡ map spelled bench_names)
      × Tells addr c ls (of_size 1) latency_funcs_64byte
      × Tells addr c ls (of_size 2) latency_funcs_128byte
      × Tells addr c ls (of_size 4) latency_funcs_256byte
names_tell addr c ls al h = (
  tasks_spelled,
  kept-Tells addr c ls all_tasks bench_func al h (tasks_keep addr c),
  kinds_spelled,
  kept-Tells addr c ls (of_size 1) latency_funcs_64byte al h (kinds_keep_64 addr c),
  kept-Tells addr c ls (of_size 2) latency_funcs_128byte al h (kinds_keep_128 addr c),
  kept-Tells addr c ls (of_size 4) latency_funcs_256byte al h (kinds_keep_256 addr c),
)
