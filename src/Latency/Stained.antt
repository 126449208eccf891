-- ===== src/Latency/Stained.antt =====
-- Plain stores of OptaneStudy/src/common.h that are not flushed leave their lines dirty.
use rw_sep.Prelude.{ℕ, zero, suc, ◌+◌, ◌-◌, ◌*◌, ◌/◌, ◌<◌, ◌≡◌, [], ◌∷◌, arith}
use rw_sep.Machine.{Event, add64}
use rw_sep.Machine.Faults.{IsAligned}
use rw_sep.Machine.Persist.{Status, Lines, line, effects, effects-append}
use rw_sep.Latency.Labels.{Kind, Flush, Width, bytes, per_line, line_from, lines_from}
use rw_sep.Latency.Settled.{piece-line}

-- A plain store dirties its line, and nothing cleans it but a flush.
store-dirty :
    (x a n : ℕ) (ls : Lines)
    → a / 64 ≡ x
    → (a + n - 1) / 64 ≡ x
    → effects (Event.store a n ∷ []) ls x ≡ Status.dirty
unfolding effects
store-dirty x a n ls low high = ground arith

store-keeps_dirty :
    (x a n : ℕ) (ls : Lines)
    → ls x ≡ Status.dirty
    → effects (Event.store a n ∷ []) ls x ≡ Status.dirty
unfolding effects
store-keeps_dirty x a n ls h = ground arith

stored_line-keeps_dirty :
    (x : ℕ) (w : Width) (addr at left i : ℕ) (ls : Lines)
    → ls x ≡ Status.dirty
    → effects (line_from Kind.store Flush.fence w addr at i left) ls x ≡ Status.dirty
unfolding effects
stored_line-keeps_dirty x w addr at zero i ls h = h
stored_line-keeps_dirty x w addr at (suc left) i ls h =
    stored_line-keeps_dirty x w addr at left (i + 1) _
      (store-keeps_dirty x (add64 addr (at + bytes w * i)) (bytes w) ls h)

mfence-keeps_dirty :
    (x : ℕ) (ls : Lines) → ls x ≡ Status.dirty → effects (Event.mfence ∷ []) ls x ≡ Status.dirty
unfolding effects
mfence-keeps_dirty x ls h = ground arith

stored_lines-keeps_dirty :
    (x : ℕ) (w : Width) (addr left l : ℕ) (ls : Lines)
    → ls x ≡ Status.dirty
    → effects (lines_from Kind.store Flush.fence w addr l left) ls x ≡ Status.dirty
stored_lines-keeps_dirty x w addr zero l ls h = mfence-keeps_dirty x ls h
stored_lines-keeps_dirty x w addr (suc left) l ls h = rw effects-append (
    stored_lines-keeps_dirty x w addr left (l + 1)
      (effects (line_from Kind.store Flush.fence w addr (64 * l) 0 (per_line w)) ls)
      (stored_line-keeps_dirty x w addr (64 * l) (per_line w) 0 ls h))

stored_line-dirty :
    (w : Width) (addr l left : ℕ) (ls : Lines)
    → IsAligned addr
    → effects
        (line_from Kind.store Flush.fence w addr (64 * l) 0 (suc left))
        ls
        (line (add64 addr (64 * l)))
      ≡ Status.dirty
unfolding effects
stored_line-dirty w addr l left ls al =
    let here = piece-line w addr l 0 al (some_pieces w) in
    stored_line-keeps_dirty (line (add64 addr (64 * l))) w addr (64 * l) left 1 _ (
      store-dirty (line (add64 addr (64 * l))) (add64 addr (64 * l + bytes w * 0)) (bytes w) ls
        here.0 here.1)
  where
    some_pieces : (w : Width) → 0 < per_line w
    some_pieces Width.register = omega arith
    some_pieces Width.movq = omega arith

whole_line-dirty :
    (w : Width) (addr l : ℕ) (ls : Lines)
    → IsAligned addr
    → effects
        (line_from Kind.store Flush.fence w addr (64 * l) 0 (per_line w))
        ls
        (line (add64 addr (64 * l)))
      ≡ Status.dirty
whole_line-dirty Width.register addr l ls al = stored_line-dirty Width.register addr l 1 ls al
whole_line-dirty Width.movq addr l ls al = stored_line-dirty Width.movq addr l 7 ls al

-- The `left` lines from line `l` of `addr` on are dirty.
abbrev pub AllDirty : (addr l left : ℕ) → Lines → Type 0
AllDirty addr l zero ls = Unit
AllDirty addr l (suc left) ls =
    (ls (line (add64 addr (64 * l))) ≡ Status.dirty) × AllDirty addr (l + 1) left ls

pub stored_lines-AllDirty :
    (w : Width) (addr left l : ℕ) (ls : Lines)
    → IsAligned addr
    → AllDirty addr l left (effects (lines_from Kind.store Flush.fence w addr l left) ls)
stored_lines-AllDirty w addr zero l ls al = tt
stored_lines-AllDirty w addr (suc left) l ls al =
    let first = line_from Kind.store Flush.fence w addr (64 * l) 0 (per_line w) in
    rw effects-append (
      stored_lines-keeps_dirty (line (add64 addr (64 * l))) w addr left (l + 1) (effects first ls)
          (whole_line-dirty w addr l ls al),
      stored_lines-AllDirty w addr left (l + 1) (effects first ls) al,
    )
