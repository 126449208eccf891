-- ===== src/Memaccess/Advance.antt =====
-- The inner loops of the kernels of OptaneStudy/src/memaccess.c: how often an access macro runs,
-- and what it leaves behind.
use rw_sep.Prelude.{
  ℕ, zero, suc, ◌+◌, ◌*◌, ◌^◌, ◌≤◌, ◌<◌, List, [], ◌∷◌, ◌++◌, ◌≡◌, refl, ap, ◌∙◌, sym, some,
  append-nil, append_assoc, concat_upto, arith,
}
use rw_sep.Prelude.Loops.{iterate, do_while-iterate}
use rw_sep.Machine.{Instr, Event, Cpu, add64, run, block, signed_ltb}
use rw_sep.Machine.Words.{signed_ltb-true, signed_ltb-false}
use rw_sep.Memaccess.Macros.{sizebtld_64, sizebtnt_64, sizebtst_64, sizebtstflush_64}
use rw_sep.Memaccess.Stride.{access_loop}

-- A macro's effect: the events `evs` at address r9 + r10, and `step` more in r10.
pub record Moved (step : ℕ) (evs : ℕ → List Event) (c c' : Cpu) : Type 0 where
  pub r8 : c'.r8 ≡ c.r8
  pub r9 : c'.r9 ≡ c.r9
  pub r11 : c'.r11 ≡ c.r11
  pub r10 : c'.r10 ≡ add64 c.r10 step
  pub trace : c'.trace ≡ c.trace ++ evs (add64 c.r9 c.r10)

-- The events of one 64-byte piece.
abbrev pub load_line : ℕ → List Event
load_line a = Event.nt_load a 64 ∷ []

abbrev pub stream_line : ℕ → List Event
stream_line a = Event.nt_store a 64 ∷ []

abbrev pub store_line : ℕ → List Event
store_line a = Event.store a 64 ∷ []

abbrev pub store_flush_line : ℕ → List Event
store_flush_line a = Event.store a 64 ∷ Event.clwb a ∷ []

pub plain_address : (a b : ℕ) → add64 (a + b * 1) 0 ≡ add64 a b
plain_address a b = omega arith

pub sizebtld_64-Moved : (c : Cpu) → Moved 64 load_line c (run sizebtld_64 c)
unfolding run sizebtld_64
sizebtld_64-Moved c = record {
  r8 = refl;
  r9 = refl;
  r11 = refl;
  r10 = refl;
  trace = ap (λ a. c.trace ++ load_line a) (plain_address c.r9 c.r10);
}

pub sizebtnt_64-Moved : (c : Cpu) → Moved 64 stream_line c (run sizebtnt_64 c)
unfolding run sizebtnt_64
sizebtnt_64-Moved c = record {
  r8 = refl;
  r9 = refl;
  r11 = refl;
  r10 = refl;
  trace = ap (λ a. c.trace ++ stream_line a) (plain_address c.r9 c.r10);
}

pub sizebtst_64-Moved : (c : Cpu) → Moved 64 store_line c (run sizebtst_64 c)
unfolding run sizebtst_64
sizebtst_64-Moved c = record {
  r8 = refl;
  r9 = refl;
  r11 = refl;
  r10 = refl;
  trace = ap (λ a. c.trace ++ store_line a) (plain_address c.r9 c.r10);
}

pub sizebtstflush_64-Moved : (c : Cpu) → Moved 64 store_flush_line c (run sizebtstflush_64 c)
unfolding run sizebtstflush_64
sizebtstflush_64-Moved c = record {
  r8 = refl;
  r9 = refl;
  r11 = refl;
  r10 = refl;
  trace =
      append_assoc c.trace (Event.store (add64 (c.r9 + c.r10 * 1) 0) 64 ∷ [])
        (Event.clwb (add64 (c.r9 + c.r10 * 1) 0) ∷ [])
      ∙ ap (λ a. c.trace ++ store_flush_line a) (plain_address c.r9 c.r10);
}

-- After `k` runs from r10 = 0.
pub record Swept (step : ℕ) (evs : ℕ → List Event) (k : ℕ) (c c' : Cpu) : Type 0 where
  pub r8 : c'.r8 ≡ c.r8
  pub r9 : c'.r9 ≡ c.r9
  pub r11 : c'.r11 ≡ c.r11
  pub r10 : c'.r10 ≡ step * k
  pub trace : c'.trace ≡ c.trace ++ concat_upto (λ i. evs (add64 c.r9 (step * i))) k

module _ (access : List Instr) (step : ℕ) (evs : ℕ → List Event)
    (moves : (c : Cpu) → Moved step evs c (run access c)) where
  pub iterate-Swept :
      (c : Cpu) (k : ℕ)
      → c.r10 ≡ 0
      → step * k < 2 ^ 64
      → Swept step evs k c (iterate (run access) k c)
  unfolding iterate concat_upto
  iterate-Swept c zero z fits = record {
    r8 = refl;
    r9 = refl;
    r11 = refl;
    r10 = omega arith;
    trace = sym (append-nil c.trace);
  }
  iterate-Swept c (suc k) z fits =
      let before = iterate-Swept c k z (omega arith) in
      let last = moves (iterate (run access) k c) in
      record {
        r8 = last.r8 ∙ before.r8;
        r9 = last.r9 ∙ before.r9;
        r11 = last.r11 ∙ before.r11;
        r10 = omega (arith, last.r10, before.r10);
        trace =
            last.trace
            ∙ rw (before.trace, before.r9, before.r10)
                (append_assoc c.trace (concat_upto (λ i. evs (add64 c.r9 (step * i))) k)
                  (evs (add64 c.r9 (step * k))));
      }

  -- Enough fuel for `n + 1` runs, the least number that reaches `size`.
  pub access_loop-iterate :
      (c : Cpu) (size n fuel : ℕ)
      → c.r10 ≡ 0
      → ((j : ℕ) → j < n → step * suc j < size)
      → size ≤ step * suc n
      → step * suc n < 2 ^ 63
      → n < fuel
      → access_loop fuel access size c ≡ some (iterate (run access) (suc n) c)
  unfolding access_loop
  access_loop-iterate c size n fuel z below reaches fits enough =
      do_while-iterate (block access) (run access) (λ c'. signed_ltb c'.r10 size) c n (λ t. refl)
        (λ j h.
          rw (Swept.r10 (iterate-Swept c (suc j) z (grind arith)))
            (signed_ltb-true (step * suc j) size (below j h) (omega arith)))
        (rw (Swept.r10 (iterate-Swept c (suc n) z (omega arith)))
          (signed_ltb-false (step * suc n) size reaches fits))
        fuel enough
