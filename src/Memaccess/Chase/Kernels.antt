-- ===== src/Memaccess/Chase/Kernels.antt =====
-- What `chasing_storeclwb` of OptaneStudy/src/memaccess.c accesses, and in which order.
use rw_sep.Prelude.{
  ℕ, suc, ◌+◌, ◌-◌, ◌*◌, ◌%◌, ◌^◌, ◌≤◌, ◌<◌, ◌≡◌, refl, ap, ◌∙◌, sym, some, List, [], ◌∷◌, ◌++◌,
  append_assoc, append-nil, concat_upto, arith,
}
use rw_sep.Prelude.Loops.{do_while_invariant}
use rw_sep.Machine.{Event, Instr, Reg, Cpu, add64, run, signed_ltb}
use rw_sep.Machine.Words.{signed_ltb-true, signed_ltb-false}
use rw_sep.Memaccess.Stride.{enter_round, leave_round, clear_counters}
use rw_sep.Memaccess.Rounds.{Traces, at_least_one, pieces}
use rw_sep.Memaccess.Chase.{store_link, chasing_round, chasing_storeclwb}
use rw_sep.Memaccess.Chase.Walk.{Holds, Clear, walk, access_loop-Walked}

-- The events of round `i`.
abbrev pub chased : (start_addr size skip cindex : ℕ) (index : ℕ → ℕ) → ℕ → List Event
chased start_addr size skip cindex index i =
    walk cindex (add64 start_addr (skip * i)) index (pieces size) ++ Event.mfence ∷ []

module _ (start_addr size skip count cindex csize : ℕ) (index : ℕ → ℕ) (fuel : ℕ) (c : Cpu)
    (positive : 0 < csize) (closed : (p : ℕ) → p < csize → index p < csize)
    (index_fits : cindex + 8 * csize ≤ 2 ^ 64)
    (lines_fit : (i : ℕ)
      → i < at_least_one count
      → add64 start_addr (skip * i) + 64 * csize ≤ 2 ^ 64)
    (clear : (i : ℕ) → i < at_least_one count → Clear csize cindex (add64 start_addr (skip * i)))
    (held : Holds csize cindex index c) (size_fits : size ≤ 2 ^ 63 - 64)
    (count_fits : count < 2 ^ 63) (size_fuel : size < fuel) (count_fuel : count < fuel) where
  -- After `k` rounds.
  record Chased (k : ℕ) (c' : Cpu) : Type 0 where
    r8 : c'.r8 ≡ skip * k % 2 ^ 64
    r11 : c'.r11 ≡ k % 2 ^ 64
    holds : Holds csize cindex index c'
    trace : c'.trace ≡ c.trace ++ concat_upto (chased start_addr size skip cindex index) k

  abbrev close : List Instr
  close = Instr.mfence ∷ Instr.clear Reg.r10 ∷ []

  abbrev entered : Cpu → Cpu
  entered s = run (enter_round start_addr ++ Instr.clear Reg.r12 ∷ []) s

  entered_lem :
      (s : Cpu)
      → ((entered s).r8 ≡ s.r8)
        × ((entered s).r9 ≡ add64 start_addr s.r8)
        × ((entered s).r10 ≡ 0)
        × ((entered s).r11 ≡ s.r11)
        × ((entered s).r12 ≡ 0)
        × ((entered s).trace ≡ s.trace)
        × ((entered s).mem ≡ s.mem)
  unfolding run enter_round
  entered_lem s = (refl, omega arith, refl, refl, refl, refl, refl)

  closed_lem :
      (s : Cpu)
      → ((run (close ++ leave_round skip) s).r8 ≡ add64 s.r8 skip)
        × ((run (close ++ leave_round skip) s).r11 ≡ add64 s.r11 1)
        × ((run (close ++ leave_round skip) s).trace ≡ s.trace ++ Event.mfence ∷ [])
        × ((run (close ++ leave_round skip) s).mem ≡ s.mem)
  unfolding run leave_round
  closed_lem s = (refl, refl, refl, refl)

  round-Chased :
      (k : ℕ) (s : Cpu)
      → k ≤ count - 1
      → Chased k s
      → (s' : Cpu) × (chasing_round fuel (store_link cindex) close start_addr size skip s ≡ some s')
        × Chased (suc k) s'
  unfolding chasing_round concat_upto
  round-Chased k s few h =
      let e = entered_lem s in
      let here : (entered s).r9 ≡ add64 start_addr (skip * k) = omega (arith, e.1, h.r8) in
      let (s1, returns, w) =
        access_loop-Walked csize cindex index closed index_fits (entered s) size fuel positive e.2
          e.4 (rw here (lines_fit k (omega arith))) (rw here (clear k (omega arith)))
          (λ p b. ap (λ (m : ℕ → ℕ). m (cindex + 8 * p)) e.6 ∙ h.holds p b) size_fits size_fuel in
      let l = closed_lem s1 in
      (
        run (close ++ leave_round skip) s1,
        rw returns,
        record {
          r8 = omega (arith, l.0, w.r8, e.0, h.r8);
          r11 = omega (arith, l.1, w.r11, e.3, h.r11);
          holds = λ p b. ap (λ (m : ℕ → ℕ). m (cindex + 8 * p)) l.3 ∙ w.holds p b;
          trace =
              l.2
              ∙ ap (λ es. es ++ Event.mfence ∷ []) w.trace
              ∙ ap
                  (λ a.
                    ((entered s).trace ++ walk cindex a index (pieces size)) ++ Event.mfence ∷ [])
                  here
              ∙ append_assoc (entered s).trace
                  (walk cindex (add64 start_addr (skip * k)) index (pieces size))
                  (Event.mfence ∷ [])
              ∙ ap (λ es. es ++ chased start_addr size skip cindex index k) (e.5 ∙ h.trace)
              ∙ append_assoc c.trace (concat_upto (chased start_addr size skip cindex index) k)
                  (chased start_addr size skip cindex index k);
        },
      )

  start-Chased : Chased 0 (run clear_counters c)
  unfolding run clear_counters concat_upto
  start-Chased = record {
    r8 = omega arith;
    r11 = refl;
    holds = held;
    trace = sym (append-nil c.trace);
  }

  -- For an index of `csize` words at `cindex` that leads from each position to one below csize,
  -- which the lines of no round overlap and which does not wrap round, nor do the lines; with
  -- a size of at most 2 ^ 63 - 64, a count below 2 ^ 63, and fuel above both: the kernel ends, and
  -- its accesses are, in this order: for each of `count` rounds (one if count is 0), a walk from
  -- position 0 along the index, of as many steps as 64-byte lines cover `size` (one if size is 0),
  -- each of which reads the index at its position, and stores and writes back the line of this
  -- position from start_addr + skip * round up; and a memory fence.
  pub chasing_storeclwb-Traces :
      Traces
        (chasing_storeclwb fuel start_addr size skip count cindex c)
        c
        (concat_upto (chased start_addr size skip cindex index) (at_least_one count))
  unfolding chasing_storeclwb
  chasing_storeclwb-Traces =
      let (c', ends, h) =
        do_while_invariant (chasing_round fuel (store_link cindex) close start_addr size skip)
          (λ s. signed_ltb s.r11 count) Chased (count - 1) round-Chased
          (λ i s b h.
            let small : suc i % 2 ^ 64 ≡ suc i = omega arith in
            rw (h.r11, small) (signed_ltb-true (suc i) count (omega arith) count_fits))
          (λ s h.
            let small : suc (count - 1) % 2 ^ 64 ≡ suc (count - 1) = omega arith in
            rw (h.r11, small)
              (signed_ltb-false (suc (count - 1)) count (omega arith) (omega arith)))
          fuel 0 (count - 1) (run clear_counters c) (omega arith) (omega arith) start-Chased in
      (c', ends, h.trace)
