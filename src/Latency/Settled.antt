-- ===== src/Latency/Settled.antt =====
-- Accesses of OptaneStudy/src/common.h whose lines are durable behind the fence: those that are
-- flushed, and those that are no plain stores.
use rw_sep.Prelude.{ℕ, zero, suc, ◌+◌, ◌-◌, ◌*◌, ◌/◌, ◌<◌, ◌≡◌, ◌≢◌, [], ◌∷◌, arith}
use rw_sep.Machine.{add64}
use rw_sep.Machine.Faults.{IsAligned}
use rw_sep.Machine.Persist.{Status, Lines, line, effects, effects-append, NoDirty, Durable}
use rw_sep.Memaccess.Durable.{mfence-Durable}
use rw_sep.Latency.Labels.{
  Kind, Flush, Width, access, flush, bytes, per_line, line_from, lines_from,
}

-- No line but `x` is dirty.
abbrev pub CleanBut : ℕ → Lines → Type 0
CleanBut x ls = (y : ℕ) → y ≢ x → ls y ≢ Status.dirty

-- An access to line `x` dirties no other.
access-CleanBut :
    (k : Kind) (x a n : ℕ) (ls : Lines)
    → a / 64 ≡ x
    → (a + n - 1) / 64 ≡ x
    → CleanBut x ls
    → CleanBut x (effects (access k a n ∷ []) ls)
unfolding effects
access-CleanBut Kind.load x a n ls low high h y ne = h y ne
access-CleanBut Kind.ntload x a n ls low high h y ne = h y ne
access-CleanBut Kind.store x a n ls low high h y ne = ground (arith, h y ne)
access-CleanBut Kind.nstore x a n ls low high h y ne = ground (arith, h y ne)

-- Each piece lies in its line.
pub piece-line :
    (w : Width) (addr l i : ℕ)
    → IsAligned addr
    → i < per_line w
    → (add64 addr (64 * l + bytes w * i) / 64 ≡ line (add64 addr (64 * l)))
      × ((add64 addr (64 * l + bytes w * i) + bytes w - 1) / 64 ≡ line (add64 addr (64 * l)))
piece-line Width.register addr l i al h = (omega arith, omega arith)
piece-line Width.movq addr l i al h = (omega arith, omega arith)

abbrev pub Flushes : Flush → Type 0
Flushes Flush.fence = ⊥
Flushes _ = Unit

flush-NoDirty :
    (f : Flush) (a : ℕ) (ls : Lines)
    → Flushes f
    → CleanBut (line a) ls
    → NoDirty (effects (flush f a) ls)
unfolding effects
flush-NoDirty Flush.fence a ls is h y = absurd is
flush-NoDirty Flush.clflush a ls is h y = ground (arith, h y)
flush-NoDirty Flush.clwb a ls is h y = ground (arith, h y)
flush-NoDirty Flush.clflushopt a ls is h y = ground (arith, h y)

-- A line that is flushed.
pub line_from-NoDirty :
    (k : Kind) (f : Flush) (w : Width) (addr l : ℕ)
    → IsAligned addr
    → Flushes f
    → (left i : ℕ) (ls : Lines) → i + left ≡ per_line w
    → CleanBut (line (add64 addr (64 * l))) ls
    → NoDirty (effects (line_from k f w addr (64 * l) i left) ls)
unfolding effects
line_from-NoDirty k f w addr l al is zero i ls e h = flush-NoDirty f (add64 addr (64 * l)) ls is h
line_from-NoDirty k f w addr l al is (suc left) i ls e h =
    let here = piece-line w addr l i al (omega arith) in
    line_from-NoDirty k f w addr l al is left (i + 1) _ (omega arith) (
      access-CleanBut k (line (add64 addr (64 * l))) (add64 addr (64 * l + bytes w * i)) (bytes w)
        ls here.0 here.1 h)

-- Accesses that leave no line dirty without a flush.
abbrev pub Passes : Kind → Type 0
Passes Kind.store = ⊥
Passes _ = Unit

access-NoDirty :
    (k : Kind) (a n : ℕ) (ls : Lines)
    → Passes k
    → NoDirty ls
    → NoDirty (effects (access k a n ∷ []) ls)
unfolding effects
access-NoDirty Kind.load a n ls is h y = h y
access-NoDirty Kind.ntload a n ls is h y = h y
access-NoDirty Kind.store a n ls is h y = absurd is
access-NoDirty Kind.nstore a n ls is h y = ground (arith, h y)

pub fenced_line-NoDirty :
    (k : Kind) (w : Width) (addr at : ℕ)
    → Passes k
    → (left i : ℕ) (ls : Lines) → NoDirty ls
    → NoDirty (effects (line_from k Flush.fence w addr at i left) ls)
unfolding effects
fenced_line-NoDirty k w addr at is zero i ls h = h
fenced_line-NoDirty k w addr at is (suc left) i ls h =
    fenced_line-NoDirty k w addr at is left (i + 1) _
      (access-NoDirty k (add64 addr (at + bytes w * i)) (bytes w) ls is h)

-- Lines each of which leaves nothing dirty are durable behind the fence.
pub lines_from-Durable :
    (k : Kind) (f : Flush) (w : Width) (addr : ℕ)
    → ((l : ℕ) (ls : Lines)
        → NoDirty ls
        → NoDirty (effects (line_from k f w addr (64 * l) 0 (per_line w)) ls))
    → (left l : ℕ) (ls : Lines) → NoDirty ls
    → Durable (effects (lines_from k f w addr l left) ls)
lines_from-Durable k f w addr tidy zero l ls h = mfence-Durable ls h
lines_from-Durable k f w addr tidy (suc left) l ls h = rw effects-append (
    lines_from-Durable k f w addr tidy left (l + 1)
      (effects (line_from k f w addr (64 * l) 0 (per_line w)) ls) (tidy l ls h))
