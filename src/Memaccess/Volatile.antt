-- ===== src/Memaccess/Volatile.antt =====
-- `stride_store` of OptaneStudy/src/memaccess.c does not write its lines back: what it stored is in
-- the cache when it returns.
use rw_sep.Prelude.{
  ℕ, zero, suc, ◌-◌, ◌*◌, ◌^◌, ◌≤◌, ◌<◌, List, [], ◌∷◌, ◌++◌, ◌≡◌, some, concat_upto, arith,
}
use native.Mathlib.Decide.{ℕ_discrete}
use rw_sep.Machine.{Event, Cpu, add64}
use rw_sep.Machine.Faults.{NoFault, NoFault-append, IsAligned}
use rw_sep.Machine.Persist.{Status, Lines, line, effects, effects-append}
use rw_sep.Memaccess.Stride.{stride_store}
use rw_sep.Memaccess.Advance.{store_line}
use rw_sep.Memaccess.Rounds.{pieces, at_least_one, sweep}
use rw_sep.Memaccess.Kernels.{strided, stride_store-Traces, strided-NoFault, store_line-NoFault}

module _ (x : ℕ) where
  -- Events behind which line `x` is dirty, and events that leave it dirty.
  abbrev Stains : List Event → Type 0
  Stains es = (ls : Lines) → effects es ls x ≡ Status.dirty

  abbrev Spares : List Event → Type 0
  Spares es = (ls : Lines) → ls x ≡ Status.dirty → effects es ls x ≡ Status.dirty

  Stains-append : (es fs : List Event) → Stains es → Spares fs → Stains (es ++ fs)
  Stains-append es fs p q ls = rw effects-append (q (effects es ls) (p ls))

  append-Stains : (es fs : List Event) → Stains fs → Stains (es ++ fs)
  append-Stains es fs p ls = rw effects-append (p (effects es ls))

  Spares-append : (es fs : List Event) → Spares es → Spares fs → Spares (es ++ fs)
  Spares-append es fs p q ls h = rw effects-append (q (effects es ls) (p ls h))

  Spares-concat_upto :
      (part : ℕ → List Event) (n : ℕ) → ((i : ℕ) → Spares (part i)) → Spares (concat_upto part n)
  unfolding concat_upto effects
  Spares-concat_upto part zero spares ls h = h
  Spares-concat_upto part (suc n) spares ls h =
      Spares-append (concat_upto part n) (part n) (Spares-concat_upto part n spares) (spares n) ls h

  Stains-concat_upto :
      (part : ℕ → List Event) (n i : ℕ)
      → i < n
      → Stains (part i)
      → ((k : ℕ) → Spares (part k))
      → Stains (concat_upto part n)
  unfolding concat_upto
  Stains-concat_upto part zero i below stains spares = absurd (omega arith)
  Stains-concat_upto part (suc n) i below stains spares = elim (ℕ_discrete i n) [
    | yes e ↦ append-Stains (concat_upto part n) (part n) (rw (← e) stains)
    | no ne ↦
        Stains-append (concat_upto part n) (part n)
          (Stains-concat_upto part n i (omega arith) stains spares) (spares n)
  ]

  store_line-Spares : (a : ℕ) → Spares (store_line a)
  unfolding effects
  store_line-Spares a ls h = ground arith

  mfence-Spares : Spares (Event.mfence ∷ [])
  unfolding effects
  mfence-Spares ls h = ground arith

  sweep-Spares : (size a : ℕ) → Spares (sweep store_line size a)
  sweep-Spares size a =
      Spares-append (concat_upto (λ j. store_line (add64 a (64 * j))) (pieces size))
        (Event.mfence ∷ [])
        (Spares-concat_upto (λ j. store_line (add64 a (64 * j))) (pieces size)
          (λ j. store_line-Spares (add64 a (64 * j))))
        mfence-Spares

store_line-Stains : (a : ℕ) → Stains (line a) (store_line a)
unfolding effects
store_line-Stains a ls = ground arith

module _ (start_addr size skip delay count fuel : ℕ) (c : Cpu) (ls : Lines)
    (start : IsAligned start_addr) (skips : IsAligned skip) (size_fits : size ≤ 2 ^ 63 - 64)
    (delay_fits : delay < 2 ^ 63) (count_fits : count < 2 ^ 63) (size_fuel : size < fuel)
    (delay_fuel : delay < fuel) (count_fuel : count < fuel) (sound : NoFault c.trace) where
  strided-Stains :
      (i j : ℕ)
      → i < at_least_one count
      → j < pieces size
      → Stains
          (line (add64 (add64 start_addr (skip * i)) (64 * j)))
          (strided store_line start_addr size skip count)
  strided-Stains i j below_i below_j =
      let a = add64 start_addr (skip * i) in
      let x = line (add64 a (64 * j)) in
      Stains-concat_upto x (λ k. sweep store_line size (add64 start_addr (skip * k)))
        (at_least_one count) i below_i
        (Stains-append x (concat_upto (λ k. store_line (add64 a (64 * k))) (pieces size))
          (Event.mfence ∷ [])
          (Stains-concat_upto x (λ k. store_line (add64 a (64 * k))) (pieces size) j below_j
            (store_line-Stains (add64 a (64 * j))) (λ k. store_line-Spares x (add64 a (64 * k))))
          (mfence-Spares x))
        (λ k. sweep-Spares x size (add64 start_addr (skip * k)))

  -- At multiples of 64 for the start address and the stride, with a size of at most 2 ^ 63 - 64, a
  -- delay and a count below 2 ^ 63, and fuel above each: stride_store returns without a fault if
  -- there was none before, and then the line at which each of its pieces begins is dirty: its data
  -- is lost at a power failure, in spite of the fences.
  pub stride_store_dirty :
      (c' : Cpu) × (stride_store fuel start_addr size skip delay count c ≡ some c')
      × NoFault c'.trace
      × ((i j : ℕ)
          → i < at_least_one count
          → j < pieces size
          → effects c'.trace ls (line (add64 (add64 start_addr (skip * i)) (64 * j)))
            ≡ Status.dirty)
  stride_store_dirty =
      let (c', returns, traced) =
        stride_store-Traces start_addr size skip delay count fuel c size_fits delay_fits count_fits
          size_fuel delay_fuel count_fuel in
      (
        c',
        returns,
        rw traced (
            NoFault-append c.trace (strided store_line start_addr size skip count) sound (
              strided-NoFault store_line start_addr size skip count store_line-NoFault start
                skips)),
        λ i j p q. rw (traced, effects-append) (strided-Stains i j p q (effects c.trace ls)),
      )
