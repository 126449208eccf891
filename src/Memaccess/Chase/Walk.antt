-- ===== src/Memaccess/Chase/Walk.antt =====
-- The inner loop of `chasing_storeclwb` (OptaneStudy/src/memaccess.c): a walk over the index.
use rw_sep.Prelude.{
  ℕ, zero, suc, ◌+◌, ◌-◌, ◌*◌, ◌/◌, ◌%◌, ◌^◌, ◌≤◌, ◌<◌, ◌≡◌, ◌⊎◌, refl, ap, ◌∙◌, sym, some, List,
  [], ◌∷◌, ◌++◌, append_assoc, append-nil, concat_upto, arith,
}
use rw_sep.Prelude.Loops.{iterate, do_while-iterate}
use rw_sep.Machine.{Event, Instr, Reg, Src, Addr, Cpu, add64, run, block, signed_ltb}
use rw_sep.Machine.Words.{signed_ltb-true, signed_ltb-false}
use rw_sep.Memaccess.Stride.{access_loop}
use rw_sep.Memaccess.Rounds.{pieces}
use rw_sep.Memaccess.Random.Draws.{write_words_outside}
use rw_sep.Memaccess.Chase.{store_link}

-- The memory holds `index` at `cindex`.
abbrev pub Holds : (csize cindex : ℕ) (index : ℕ → ℕ) → Cpu → Type 0
Holds csize cindex index c = (p : ℕ) → p < csize → c.mem (cindex + 8 * p) ≡ index p

-- The lines from `a` up do not overlap the index.
abbrev pub Clear : (csize cindex a : ℕ) → Type 0
Clear csize cindex a =
    (p q : ℕ)
    → p < csize
    → q < csize
    → (cindex + 8 * p < a + 64 * q) ⊎ (a + 64 * q + 64 ≤ cindex + 8 * p)

-- The events of one step from position `p`.
abbrev pub store_step : (cindex a p : ℕ) → List Event
store_step cindex a p =
    Event.load (cindex + 8 * p) 8 ∷ Event.store (a + 64 * p) 64 ∷ Event.clwb (a + 64 * p) ∷ []

-- `k` steps of the walk from position 0.
abbrev pub walk : (cindex a : ℕ) (index : ℕ → ℕ) → ℕ → List Event
walk cindex a index k = concat_upto (λ j. store_step cindex a (iterate index j 0)) k

module _ (csize cindex : ℕ) (index : ℕ → ℕ) (closed : (p : ℕ) → p < csize → index p < csize)
    (index_fits : cindex + 8 * csize ≤ 2 ^ 64) where
  record Stepped (c c' : Cpu) : Type 0 where
    r8 : c'.r8 ≡ c.r8
    r9 : c'.r9 ≡ c.r9
    r11 : c'.r11 ≡ c.r11
    r10 : c'.r10 ≡ add64 c.r10 64
    r12 : c'.r12 ≡ index c.r12
    trace : c'.trace ≡ c.trace ++ store_step cindex c.r9 c.r12
    holds : Holds csize cindex index c'

  store_link-Stepped :
      (c : Cpu)
      → c.r12 < csize
      → c.r9 + 64 * csize ≤ 2 ^ 64
      → Clear csize cindex c.r9
      → Holds csize cindex index c
      → Stepped c (run (store_link cindex) c)
  unfolding run store_link
  store_link-Stepped c below fits clear held =
      let loaded = run (Instr.movq_load_vec (Addr.indexed 0 (Src.imm cindex) Reg.r12 8) 0 ∷ []) c in
      let from : add64 (cindex + c.r12 * 8) 0 ≡ cindex + 8 * c.r12 = omega arith in
      let to : add64 (c.r9 + c.r12 * 2 ^ 6 % 2 ^ 64 * 1) 0 ≡ c.r9 + 64 * c.r12 = omega arith in
      record {
        r8 = refl;
        r9 = refl;
        r11 = refl;
        r10 = refl;
        r12 = rw from (held c.r12 below);
        trace = rw (from, to) (simp append_assoc);
        holds = λ p h. rw to (
            write_words_outside (c.r9 + 64 * c.r12) (cindex + 8 * p) (loaded.vec 0) c.mem
              (clear p c.r12 h below)
            ∙ held p h);
      }

  -- After `k` steps from position 0.
  pub record Walked (k : ℕ) (c c' : Cpu) : Type 0 where
    pub r8 : c'.r8 ≡ c.r8
    pub r9 : c'.r9 ≡ c.r9
    pub r11 : c'.r11 ≡ c.r11
    pub r10 : c'.r10 ≡ 64 * k
    pub r12 : c'.r12 ≡ iterate index k 0
    pub below : c'.r12 < csize
    pub trace : c'.trace ≡ c.trace ++ walk cindex c.r9 index k
    pub holds : Holds csize cindex index c'

  iterate-Walked :
      (c : Cpu) (k : ℕ)
      → 0 < csize
      → c.r10 ≡ 0
      → c.r12 ≡ 0
      → c.r9 + 64 * csize ≤ 2 ^ 64
      → Clear csize cindex c.r9
      → Holds csize cindex index c
      → 64 * k < 2 ^ 64
      → Walked k c (iterate (run (store_link cindex)) k c)
  unfolding iterate concat_upto
  iterate-Walked c zero pos z10 z12 fits clear held small = record {
    r8 = refl;
    r9 = refl;
    r11 = refl;
    r10 = omega arith;
    r12 = z12;
    below = omega arith;
    trace = sym (append-nil c.trace);
    holds = held;
  }
  iterate-Walked c (suc k) pos z10 z12 fits clear held small =
      let w = iterate-Walked c k pos z10 z12 fits clear held (omega arith) in
      let s =
        store_link-Stepped (iterate (run (store_link cindex)) k c) w.below (rw w.r9 fits)
          (rw w.r9 clear) w.holds in
      record {
        r8 = s.r8 ∙ w.r8;
        r9 = s.r9 ∙ w.r9;
        r11 = s.r11 ∙ w.r11;
        r10 = omega (arith, s.r10, w.r10);
        r12 = s.r12 ∙ ap index w.r12;
        below = rw s.r12 (closed (iterate (run (store_link cindex)) k c).r12 w.below);
        trace = s.trace ∙ rw (w.trace, w.r9, w.r12) (append_assoc c.trace _ _);
        holds = s.holds;
      }

  pub access_loop-Walked :
      (c : Cpu) (size fuel : ℕ)
      → 0 < csize
      → c.r10 ≡ 0
      → c.r12 ≡ 0
      → c.r9 + 64 * csize ≤ 2 ^ 64
      → Clear csize cindex c.r9
      → Holds csize cindex index c
      → size ≤ 2 ^ 63 - 64
      → size < fuel
      → (c' : Cpu) × (access_loop fuel (store_link cindex) size c ≡ some c')
        × Walked (pieces size) c c'
  unfolding access_loop
  access_loop-Walked c size fuel pos z10 z12 fits clear held size_fits enough =
      let n : ℕ = (size - 1) / 64 in
      let walked =
        λ (k : ℕ) (h : 64 * k < 2 ^ 64). iterate-Walked c k pos z10 z12 fits clear held h in
      (
        iterate (run (store_link cindex)) (suc n) c,
        do_while-iterate (block (store_link cindex)) (run (store_link cindex))
            (λ c'. signed_ltb c'.r10 size) c n (λ t. refl)
            (λ j h.
              rw ((walked (suc j) (omega arith)).r10)
                (signed_ltb-true (64 * suc j) size (omega arith) (omega arith)))
            (rw ((walked (suc n) (omega arith)).r10)
              (signed_ltb-false (64 * suc n) size (omega arith) (omega arith)))
            fuel (omega arith),
        walked (suc n) (omega arith),
      )
