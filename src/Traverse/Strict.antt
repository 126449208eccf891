-- ===== src/Traverse/Strict.antt =====
-- The persistency of the chase in pm_study/microbenchmark/lat.cpp, by the rules of Machine/Persist,
-- and that it leaves the pointers it follows alone.
use rw_sep.Prelude.{ℕ, ◌+◌, ◌*◌, ◌^◌, ◌≤◌, ◌<◌, List, [], ◌∷◌, ◌++◌, ◌⊎◌, arith}
use rw_sep.Machine.{Event}
use rw_sep.Machine.Persist.{Lines, effects, effects-append, NoDirty, Durable}
use rw_sep.Machine.Faults.{IsAligned}
use rw_sep.Memaccess.Durable.{Tidy, Tidy-append}
use rw_sep.Traverse.{
  unit_size, wr_clwb, wr_clwb_sfence, wr_nt, wr_nt_sfence, pad_address, method_events,
}

-- Events that leave every line durable if all were.
abbrev KeepsDurable : List Event → Type 0
KeepsDurable es = (ls : Lines) → Durable ls → Durable (effects es ls)

KeepsDurable-append :
    (es fs : List Event) → KeepsDurable es → KeepsDurable fs → KeepsDurable (es ++ fs)
KeepsDurable-append es fs p q ls h = rw effects-append (q (effects es ls) (p ls h))

wr_clwb_sfence-KeepsDurable : (a : ℕ) → IsAligned a → KeepsDurable (wr_clwb_sfence a)
unfolding effects wr_clwb_sfence
wr_clwb_sfence-KeepsDurable a al ls h x = ground (arith, h x)

wr_nt_sfence-KeepsDurable : (a : ℕ) → KeepsDurable (wr_nt_sfence a)
unfolding effects wr_nt_sfence
wr_nt_sfence-KeepsDurable a ls h x = ground (arith, h x)

wr_clwb-Tidy : (a : ℕ) → IsAligned a → Tidy (wr_clwb a)
unfolding effects wr_clwb
wr_clwb-Tidy a al ls h x = ground (arith, h x)

wr_nt-Tidy : (a : ℕ) → Tidy (wr_nt a)
unfolding effects wr_nt
wr_nt-Tidy a ls h x = ground (arith, h x)

pad_address-IsAligned : (work_ptr p : ℕ) → IsAligned work_ptr → IsAligned (pad_address work_ptr p)
unfolding pad_address
pad_address-IsAligned work_ptr p h = omega arith

-- A property of events that appending keeps holds of a chase if it holds of each visit.
visits_keep :
    (P : List Event → Type 0) (wr_method : ℕ → List Event) (work_ptr : ℕ)
    → P []
    → ((es fs : List Event) → P es → P fs → P (es ++ fs))
    → ((p : ℕ) → P (wr_method (pad_address work_ptr p)))
    → (ps : List ℕ) → P (method_events wr_method work_ptr ps)
unfolding method_events
visits_keep P wr_method work_ptr none_yet appended each [] = none_yet
visits_keep P wr_method work_ptr none_yet appended each (p ∷ ps) =
    appended (wr_method (pad_address work_ptr p)) (method_events wr_method work_ptr ps) (each p)
      (visits_keep P wr_method work_ptr none_yet appended each ps)

-- With units that start at a multiple of 64 and all lines durable before: whatever the units that
-- have been visited, every line is durable in the strict modes, those with a fence, and no line is
-- dirty in the relaxed ones.
pub method_events-Durable :
    (work_ptr : ℕ) (ps : List ℕ) (ls : Lines)
    → IsAligned work_ptr
    → Durable ls
    → Durable (effects (method_events wr_clwb_sfence work_ptr ps) ls)
      × Durable (effects (method_events wr_nt_sfence work_ptr ps) ls)
      × NoDirty (effects (method_events wr_clwb work_ptr ps) ls)
      × NoDirty (effects (method_events wr_nt work_ptr ps) ls)
unfolding effects
method_events-Durable work_ptr ps ls al h =
    let pad_al : (p : ℕ) → IsAligned (pad_address work_ptr p) =
      λ p. pad_address-IsAligned work_ptr p al in
    let no_dirty : NoDirty ls = λ x. ground (arith, h x) in
    (
      visits_keep KeepsDurable wr_clwb_sfence work_ptr (λ ls k. k) KeepsDurable-append
          (λ p. wr_clwb_sfence-KeepsDurable (pad_address work_ptr p) (pad_al p)) ps ls h,
      visits_keep KeepsDurable wr_nt_sfence work_ptr (λ ls k. k) KeepsDurable-append
          (λ p. wr_nt_sfence-KeepsDurable (pad_address work_ptr p)) ps ls h,
      visits_keep Tidy wr_clwb work_ptr (λ ls k. k) Tidy-append
          (λ p. wr_clwb-Tidy (pad_address work_ptr p) (pad_al p)) ps ls no_dirty,
      visits_keep Tidy wr_nt work_ptr (λ ls k. k) Tidy-append
          (λ p. wr_nt-Tidy (pad_address work_ptr p)) ps ls no_dirty,
    )

-- With units that do not wrap around the address space, none of the 64 bytes at the pad of a unit
-- belongs to a unit's pointer.
pub pad_address_apart :
    (work_ptr n p q b : ℕ)
    → work_ptr + unit_size * n ≤ 2 ^ 64
    → p < n
    → q < n
    → pad_address work_ptr p ≤ b
    → b < pad_address work_ptr p + 64
    → (b < work_ptr + unit_size * q) ⊎ (work_ptr + unit_size * q + 8 ≤ b)
unfolding pad_address
pad_address_apart work_ptr n p q b room hp hq from to = ground arith
