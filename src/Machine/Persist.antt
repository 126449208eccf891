-- ===== src/Machine/Persist.antt =====
-- Which cache lines are durable after a sequence of accesses, flushes and fences: the rules of the
-- instruction set that the kernels rely on. A store leaves its lines dirty; a flush of a dirty
-- line, or a non-temporal store, starts its way to memory, and a store fence completes it.
use rw_sep.Prelude.{
  ℕ, ◌+◌, ◌-◌, ◌/◌, Bool, ◌&&◌, List, [], ◌∷◌, ◌++◌, leb, ◌==◌, if◌then◌else◌, ◌≡◌, ◌≢◌, refl,
}
use rw_sep.Machine.{Event}

pub data Status : Type 0 where
  clean dirty draining : Status

-- The status of each line, by its number: the address divided by 64.
abbrev pub Lines : Type 0
Lines = ℕ → Status

abbrev pub line : ℕ → ℕ
line address = address / 64

-- Line `x` holds one of the `bytes` bytes at `address`.
abbrev pub touches : ℕ → ℕ → ℕ → Bool
touches address bytes x = leb (line address) x && leb x (line (address + bytes - 1))

abbrev pub start_drain : Status → Status
start_drain Status.dirty = Status.draining
start_drain s = s

abbrev pub finish_drain : Status → Status
finish_drain Status.draining = Status.clean
finish_drain s = s

abbrev pub flush_line : ℕ → Lines → Lines
flush_line address ls x = if line address == x then start_drain (ls x) else ls x

unfoldable pub effect : Event → Lines → Lines
effect (Event.load a n) ls x = ls x
effect (Event.nt_load a n) ls x = ls x
effect (Event.store a n) ls x = if touches a n x then Status.dirty else ls x
effect (Event.nt_store a n) ls x = if touches a n x then Status.draining else ls x
effect (Event.clflush a) ls x = flush_line a ls x
effect (Event.clflushopt a) ls x = flush_line a ls x
effect (Event.clwb a) ls x = flush_line a ls x
effect Event.mfence ls x = finish_drain (ls x)
effect Event.sfence ls x = finish_drain (ls x)
effect Event.lfence ls x = ls x
effect Event.rdtscp ls x = ls x

unfoldable pub effects : List Event → Lines → Lines
unfolding effect
effects [] ls = ls
effects (e ∷ es) ls = effects es (effect e ls)

pub effects-append :
    (es fs : List Event) (ls : Lines) → effects (es ++ fs) ls ≡ effects fs (effects es ls)
unfolding effects
effects-append [] fs ls = refl
effects-append (e ∷ es) fs ls = effects-append es fs (effect e ls)

-- No line is dirty; no line holds data on its way.
abbrev pub NoDirty : Lines → Type 0
NoDirty ls = (x : ℕ) → ls x ≢ Status.dirty

abbrev pub Durable : Lines → Type 0
Durable ls = (x : ℕ) → ls x ≡ Status.clean
