-- ===== src/Memaccess/Random/Loops.antt =====
-- The loops of `sizebw_load`, `sizebw_nt`, `sizebw_store` and `sizebw_storeclwb` of
-- OptaneStudy/src/memaccess.c, over any access macro of 512 bytes.
use rw_sep.Prelude.{
  ℕ, zero, suc, ◌+◌, ◌-◌, ◌*◌, ◌/◌, ◌%◌, ◌^◌, ◌≤◌, ◌<◌, some, List, [], ◌∷◌, ◌++◌, ◌≡◌, refl, ap,
  ◌∙◌, sym, append-nil, append_assoc, concat_upto, bit_and, arith,
}
use rw_sep.Prelude.Loops.{iterate, do_while_run}
use rw_sep.Machine.{Instr, Event, Cpu, add64, run, signed_ltb}
use rw_sep.Machine.Words.{signed_ltb-true, signed_ltb-false}
use rw_sep.Memaccess.Stride.{enter_round}
use rw_sep.Memaccess.Advance.{Moved, iterate-Swept, access_loop-iterate}
use rw_sep.Memaccess.Rounds.{Traces}
use rw_sep.Memaccess.Random.{lfsr_mask, rand_lfsr64, random_access, sizebw_round, sizebw_loop}
use rw_sep.Memaccess.Random.Lfsr.{lfsr_step}
use rw_sep.Memaccess.Random.Draws.{rand_lfsr64-Drawn, Keeps}

-- How many blocks of 512 bytes cover `size` bytes, and at least one.
abbrev pub blocks : ℕ → ℕ
blocks size = suc ((size - 1) / 512)

-- How many accesses a kernel makes for `count`: the next multiple of 4, and at least 4.
abbrev pub draws : ℕ → ℕ
draws count = 4 * suc ((count - 1) / 4)

-- The events of one access, for a word that was drawn.
abbrev pub drawn_access :
    (ℕ → List Event) → (start_addr size random access_mask : ℕ) → ℕ → List Event
drawn_access evs start_addr size random access_mask word =
    (Event.load random 8 ∷ Event.store random 8 ∷ [])
    ++ (concat_upto (λ j. evs (add64 (add64 start_addr (bit_and word access_mask)) (512 * j)))
          (blocks size)
        ++ Event.mfence ∷ [])

-- The events of a kernel: access `i` is for the word that `i + 1` steps from the seed lead to.
abbrev pub random_accesses :
    (ℕ → List Event) → (start_addr size count random access_mask seed : ℕ) → List Event
random_accesses evs start_addr size count random access_mask seed =
    concat_upto
      (λ i. drawn_access evs start_addr size random access_mask (iterate lfsr_step (suc i) seed))
      (draws count)

module _ (access : List Instr) (evs : ℕ → List Event) (Safe : ℕ → Type 0)
    (start_addr size random access_mask fuel : ℕ)
    (moves : (c : Cpu) → Moved 512 evs c (run access c)) (keeps : Keeps random Safe access)
    (random_fits : random < 2 ^ 64) (size_fits : size ≤ 2 ^ 63 - 512) (size_fuel : size < fuel)
    (safe : (word j : ℕ)
      → j < blocks size
      → Safe (add64 (add64 start_addr (bit_and word access_mask)) (512 * j))) where
  -- The inner loop keeps the mask and the seed.
  iterate_keeps :
      (c : Cpu) (word : ℕ)
      → c.r9 ≡ add64 start_addr (bit_and word access_mask)
      → c.r10 ≡ 0
      → (k : ℕ) → k ≤ blocks size
      → ((iterate (run access) k c).rcx ≡ c.rcx)
        × ((iterate (run access) k c).mem random ≡ c.mem random)
  unfolding iterate
  iterate_keeps c word base z zero h = (refl, refl)
  iterate_keeps c word base z (suc k) h =
      let before = iterate_keeps c word base z k (omega arith) in
      let s = iterate-Swept access 512 evs moves c k z (omega arith) in
      let last = keeps (iterate (run access) k c) in
      let here : add64 (iterate (run access) k c).r9 (iterate (run access) k c).r10
          ≡ add64 (add64 start_addr (bit_and word access_mask)) (512 * k) =
        rw (s.r9, s.r10, base) in
      (last.0 ∙ before.0, last.1 (rw here (safe word k (omega arith))) ∙ before.1)

  -- What one access leaves.
  record Accessed (c c' : Cpu) : Type 0 where
    r11 : c'.r11 ≡ c.r11
    rcx : c'.rcx ≡ c.rcx
    seed : c'.mem random ≡ lfsr_step (c.mem random)
    trace :
        c'.trace
        ≡ c.trace ++ drawn_access evs start_addr size random access_mask (lfsr_step (c.mem random))

  random_access-Accessed :
      (c : Cpu)
      → c.rcx ≡ lfsr_mask
      → (c' : Cpu) × (random_access fuel access start_addr size random access_mask c ≡ some c')
        × Accessed c c'
  unfolding random_access run
  random_access-Accessed c mask =
      let c0 = run (rand_lfsr64 random access_mask ++ enter_round start_addr) c in
      let d = rand_lfsr64-Drawn start_addr random access_mask c random_fits mask in
      let n : ℕ = (size - 1) / 512 in
      let cn = iterate (run access) (suc n) c0 in
      let s = iterate-Swept access 512 evs moves c0 (suc n) d.r10 (omega arith) in
      let e =
        access_loop-iterate access 512 evs moves c0 size n fuel d.r10 (λ j h. omega arith)
          (omega arith) (omega arith) (omega arith) in
      let k = iterate_keeps c0 (lfsr_step (c.mem random)) d.r9 d.r10 (suc n) (omega arith) in
      (
        record cn { trace = cn.trace ++ Event.mfence ∷ [] },
        rw e,
        record {
          r11 = s.r11 ∙ d.r11;
          rcx = k.0 ∙ d.rcx;
          seed = k.1 ∙ d.seed;
          trace =
              rw (s.trace, d.r9, d.trace)
                (append_assoc (c.trace ++ Event.load random 8 ∷ Event.store random 8 ∷ []) _ _
                  ∙ append_assoc c.trace (Event.load random 8 ∷ Event.store random 8 ∷ []) _);
        },
      )

  module _ (old : List Event) (seed : ℕ) where
    -- After `i` accesses.
    record Reached (i : ℕ) (c : Cpu) : Type 0 where
      rcx : c.rcx ≡ lfsr_mask
      word : c.mem random ≡ iterate lfsr_step i seed
      trace :
          c.trace
          ≡ old
            ++ concat_upto
                (λ j.
                  drawn_access evs start_addr size random access_mask
                    (iterate lfsr_step (suc j) seed))
                i

    access-Reached :
        (i : ℕ) (c : Cpu)
        → Reached i c
        → (c' : Cpu) × (random_access fuel access start_addr size random access_mask c ≡ some c')
          × Reached (suc i) c'
          × (c'.r11 ≡ c.r11)
    unfolding iterate concat_upto
    access-Reached i c h =
        let (c', returns, a) = random_access-Accessed c h.rcx in
        let part = drawn_access evs start_addr size random access_mask in
        (
          c',
          returns,
          record {
            rcx = a.rcx ∙ h.rcx;
            word = rw (a.seed, h.word);
            trace =
                a.trace
                ∙ ap (λ w. c.trace ++ part (lfsr_step w)) h.word
                ∙ ap (λ es. es ++ part (lfsr_step (iterate lfsr_step i seed))) h.trace
                ∙ append_assoc old _ _;
          },
          a.r11,
        )

    round-Reached :
        (i : ℕ) (c : Cpu)
        → Reached i c
        → (c' : Cpu) × (sizebw_round fuel access start_addr size random access_mask c ≡ some c')
          × Reached (i + 4) c'
          × (c'.r11 ≡ add64 c.r11 4)
    unfolding sizebw_round run
    round-Reached i c h =
        let (c1, r1, h1, e1) = access-Reached i c h in
        let (c2, r2, h2, e2) = access-Reached (suc i) c1 h1 in
        let (c3, r3, h3, e3) = access-Reached (suc (suc i)) c2 h2 in
        let (c4, r4, h4, e4) = access-Reached (suc (suc (suc i))) c3 h3 in
        let four : suc (suc (suc (suc i))) ≡ i + 4 = omega arith in
        let h' : Reached (i + 4) c4 = rw four at h4 in
        (
          record c4 { r11 = add64 c4.r11 4 },
          rw (r1, r2, r3, r4),
          record { rcx = h'.rcx; word = h'.word; trace = h'.trace },
          rw (e4, e3, e2, e1),
        )

    -- The state after `k` rounds.
    state :
        (c : Cpu)
        → Reached 0 c
        → c.r11 ≡ 0
        → (k : ℕ) → (c' : Cpu) × Reached (4 * k) c' × (c'.r11 ≡ 4 * k % 2 ^ 64)
    state c h z zero = (c, h, z)
    state c h z (suc k) =
        let (c1, h1, e1) = state c h z k in
        let (c2, r2, h2, e2) = round-Reached (4 * k) c1 h1 in
        let next : 4 * k + 4 ≡ 4 * suc k = omega arith in (c2, rw next at h2, omega (arith, e1, e2))

    state_round :
        (c : Cpu) (h : Reached 0 c) (z : c.r11 ≡ 0) (k : ℕ)
        → sizebw_round fuel access start_addr size random access_mask (state c h z k).0
          ≡ some (state c h z (suc k)).0
    unfolding state
    state_round c h z k = (round-Reached (4 * k) (state c h z k).0 (state c h z k).1).1

  pub sizebw_loop-Traces :
      (prologue : List Instr) (count : ℕ) (c : Cpu)
      → (run prologue c).rcx ≡ lfsr_mask
      → (run prologue c).r11 ≡ 0
      → (run prologue c).mem random ≡ c.mem random
      → (run prologue c).trace ≡ c.trace
      → count ≤ 2 ^ 63 - 4
      → count < fuel
      → Traces
          (sizebw_loop fuel prologue access start_addr size count random access_mask c)
          c
          (random_accesses evs start_addr size count random access_mask (c.mem random))
  unfolding sizebw_loop state
  sizebw_loop-Traces prologue count c mask z same old fits enough =
      let c0 = run prologue c in
      let h0 : Reached c.trace (c.mem random) 0 c0 = record {
        rcx = mask;
        word = unfold iterate in same;
        trace = unfold concat_upto in old ∙ sym (append-nil c.trace);
      } in
      let n : ℕ = (count - 1) / 4 in
      let at = λ (k : ℕ). state c.trace (c.mem random) c0 h0 z k in
      (
        (at (suc n)).0,
        do_while_run (sizebw_round fuel access start_addr size random access_mask)
            (λ c'. signed_ltb c'.r11 count) (λ k. (at k).0) n
            (λ j _. state_round c.trace (c.mem random) c0 h0 z j)
            (λ j h.
              let small : 4 * suc j % 2 ^ 64 ≡ 4 * suc j = omega arith in
              rw ((at (suc j)).2, small)
                (signed_ltb-true (4 * suc j) count (omega arith) (omega arith)))
            (let small : 4 * suc n % 2 ^ 64 ≡ 4 * suc n = omega arith in
              rw ((at (suc n)).2, small)
                (signed_ltb-false (4 * suc n) count (omega arith) (omega arith)))
            fuel 0 n (omega arith) (omega arith),
        (at (suc n)).1.trace,
      )
