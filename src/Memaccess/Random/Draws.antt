-- ===== src/Memaccess/Random/Draws.antt =====
-- One random access of the `sizebw_` kernels of OptaneStudy/src/memaccess.c: the draw of
-- `RandLFSR64`, and a 512-byte access macro with what it does to the word that holds the seed.
use rw_sep.Prelude.{
  ℕ, zero, suc, ◌+◌, ◌*◌, ◌%◌, ◌^◌, ◌<◌, ◌≤◌, ◌≡◌, ◌⊎◌, inl, inr, refl, ◌∙◌, true, false, List, [],
  ◌∷◌, ◌++◌, append_assoc, concat_upto, ltb, leb, ◌==◌, if◌then◌else◌, bit_and, arith,
}
use rw_sep.Prelude.Bits.{bit_and-one}
use rw_sep.Machine.{Event, Instr, Cpu, add64, sub64, run, write_words}
use rw_sep.Memaccess.Macros.{sizebtld_512, sizebtnt_512, sizebtst_512, sizebtstflush_512}
use rw_sep.Memaccess.Stride.{enter_round}
use rw_sep.Memaccess.Advance.{
  Moved, plain_address, load_line, stream_line, store_line, store_flush_line,
}
use rw_sep.Memaccess.Random.{lfsr_mask, rand_lfsr64}
use rw_sep.Memaccess.Random.Lfsr.{lfsr_step}

-- `neg` of the lowest bit, as a mask for `and`.
masked :
    (x : ℕ)
    → bit_and (sub64 0 (bit_and (x % 2 ^ 32) 1)) lfsr_mask ≡ (if x % 2 == 0 then 0 else lfsr_mask)
masked x =
    let low : x % 2 ^ 32 % 2 ≡ x % 2 = omega arith in
    rw (bit_and-one (x % 2 ^ 32), low) (by_bit (x % 2) (omega arith))
  where
    by_bit : (b : ℕ) → b < 2 → bit_and (sub64 0 b) lfsr_mask ≡ (if b == 0 then 0 else lfsr_mask)
    by_bit zero h = refl
    by_bit (suc zero) h = refl
    by_bit (suc (suc b)) h = absurd (omega arith)

-- What a draw leaves: the next word of the shift register, in memory and as the base of the access.
pub record Drawn (start_addr random access_mask : ℕ) (c c' : Cpu) : Type 0 where
  pub r9 : c'.r9 ≡ add64 start_addr (bit_and (lfsr_step (c.mem random)) access_mask)
  pub r10 : c'.r10 ≡ 0
  pub r11 : c'.r11 ≡ c.r11
  pub rcx : c'.rcx ≡ c.rcx
  pub seed : c'.mem random ≡ lfsr_step (c.mem random)
  pub trace : c'.trace ≡ c.trace ++ Event.load random 8 ∷ Event.store random 8 ∷ []

written_word : (a v : ℕ) (m : ℕ → ℕ) → write_words a 1 (λ _. v) m a ≡ v
unfolding write_words
written_word a v m =
    let low : leb a a ≡ true = ground arith in
    let high : ltb a (a + 8 * 1) ≡ true = ground arith in rw (low, high)

pub rand_lfsr64-Drawn :
    (start_addr random access_mask : ℕ) (c : Cpu)
    → random < 2 ^ 64
    → c.rcx ≡ lfsr_mask
    → Drawn start_addr random access_mask c
        (run (rand_lfsr64 random access_mask ++ enter_round start_addr) c)
unfolding run rand_lfsr64 enter_round lfsr_step
rand_lfsr64-Drawn start_addr random access_mask c h mask =
    let here : add64 random 0 ≡ random = omega arith in
    record {
      r9 = rw (plain_address, here, mask, masked);
      r10 = refl;
      r11 = refl;
      rcx = refl;
      seed = rw here (written_word random _ c.mem ∙ rw (mask, masked));
      trace = rw here (append_assoc c.trace _ _);
    }

-- The events of 512 bytes in pieces of 64.
abbrev pub eight : (ℕ → List Event) → ℕ → List Event
eight evs a = concat_upto (λ k. evs (add64 a (64 * k))) 8

piece_address : (a b d : ℕ) → add64 (a + b * 1) d ≡ add64 (add64 a b) d
piece_address a b d = omega arith

pub sizebtld_512-Moved : (c : Cpu) → Moved 512 (eight load_line) c (run sizebtld_512 c)
unfolding run sizebtld_512 concat_upto
sizebtld_512-Moved c = record {
  r8 = refl;
  r9 = refl;
  r11 = refl;
  r10 = refl;
  trace = simp (append_assoc, piece_address);
}

pub sizebtnt_512-Moved : (c : Cpu) → Moved 512 (eight stream_line) c (run sizebtnt_512 c)
unfolding run sizebtnt_512 concat_upto
sizebtnt_512-Moved c = record {
  r8 = refl;
  r9 = refl;
  r11 = refl;
  r10 = refl;
  trace = simp (append_assoc, piece_address);
}

pub sizebtst_512-Moved : (c : Cpu) → Moved 512 (eight store_line) c (run sizebtst_512 c)
unfolding run sizebtst_512 concat_upto
sizebtst_512-Moved c = record {
  r8 = refl;
  r9 = refl;
  r11 = refl;
  r10 = refl;
  trace = simp (append_assoc, piece_address);
}

pub sizebtstflush_512-Moved :
    (c : Cpu) → Moved 512 (eight store_flush_line) c (run sizebtstflush_512 c)
unfolding run sizebtstflush_512 concat_upto
sizebtstflush_512-Moved c = record {
  r8 = refl;
  r9 = refl;
  r11 = refl;
  r10 = refl;
  trace = simp (append_assoc, piece_address);
}

-- The word at `random` lies outside each of the eight pieces from address `a` up.
abbrev pub Outside : (random a : ℕ) → Type 0
Outside random a = (k : ℕ) → k < 8 → (random < add64 a (64 * k)) ⊎ (add64 a (64 * k) + 64 ≤ random)

-- A macro that keeps the mask, and the word at `random` where its block is `Safe`.
abbrev pub Keeps : (random : ℕ) (Safe : ℕ → Type 0) (access : List Instr) → Type 0
Keeps random Safe access =
    (c : Cpu)
    → ((run access c).rcx ≡ c.rcx)
      × (Safe (add64 c.r9 c.r10) → (run access c).mem random ≡ c.mem random)

pub sizebtld_512-Keeps : (random : ℕ) → Keeps random (λ a. Unit) sizebtld_512
unfolding run sizebtld_512
sizebtld_512-Keeps random c = (refl, λ _. refl)

pub write_words_outside :
    (a x : ℕ) (v m : ℕ → ℕ) → (x < a) ⊎ (a + 64 ≤ x) → write_words a 8 v m x ≡ m x
unfolding write_words
write_words_outside a x v m (inl h) = let low : leb a x ≡ false = ground arith in rw low
write_words_outside a x v m (inr h) =
    let high : ltb x (a + 64) ≡ false = ground arith in
    let low : leb a x ≡ true = ground arith in rw (low, high)

Outside-piece :
    (random : ℕ) (c : Cpu)
    → Outside random (add64 c.r9 c.r10)
    → (k : ℕ) → k < 8
    → (random < add64 (c.r9 + c.r10 * 1) (64 * k))
      ⊎ (add64 (c.r9 + c.r10 * 1) (64 * k) + 64 ≤ random)
Outside-piece random c out k h = rw piece_address (out k h)

-- Eight stores of the same register, one after another.
abbrev eight_stores : (base : ℕ) (v m : ℕ → ℕ) → ℕ → ℕ
eight_stores base v m =
    let at = λ (k : ℕ). add64 base (64 * k) in
    write_words (at 7) 8 v (
      write_words (at 6) 8 v (
        write_words (at 5) 8 v (
          write_words (at 4) 8 v (
            write_words (at 3) 8 v
              (write_words (at 2) 8 v (write_words (at 1) 8 v (write_words (at 0) 8 v m)))))))

eight_stores_outside :
    (base random : ℕ) (v m : ℕ → ℕ)
    → ((k : ℕ) → k < 8 → (random < add64 base (64 * k)) ⊎ (add64 base (64 * k) + 64 ≤ random))
    → eight_stores base v m random ≡ m random
eight_stores_outside base random v m out = rw (
  write_words_outside (add64 base (64 * 7)) random v _ (out 7 (omega arith)),
  write_words_outside (add64 base (64 * 6)) random v _ (out 6 (omega arith)),
  write_words_outside (add64 base (64 * 5)) random v _ (out 5 (omega arith)),
  write_words_outside (add64 base (64 * 4)) random v _ (out 4 (omega arith)),
  write_words_outside (add64 base (64 * 3)) random v _ (out 3 (omega arith)),
  write_words_outside (add64 base (64 * 2)) random v _ (out 2 (omega arith)),
  write_words_outside (add64 base (64 * 1)) random v _ (out 1 (omega arith)),
  write_words_outside (add64 base (64 * 0)) random v m (out 0 (omega arith)),
)

pub sizebtnt_512-Keeps : (random : ℕ) → Keeps random (Outside random) sizebtnt_512
unfolding run sizebtnt_512
sizebtnt_512-Keeps random c = (
  refl,
  λ out.
      eight_stores_outside (c.r9 + c.r10 * 1) random (c.vec 0) c.mem (Outside-piece random c out),
)

pub sizebtst_512-Keeps : (random : ℕ) → Keeps random (Outside random) sizebtst_512
unfolding run sizebtst_512
sizebtst_512-Keeps random c = (
  refl,
  λ out.
      eight_stores_outside (c.r9 + c.r10 * 1) random (c.vec 0) c.mem (Outside-piece random c out),
)

pub sizebtstflush_512-Keeps : (random : ℕ) → Keeps random (Outside random) sizebtstflush_512
unfolding run sizebtstflush_512
sizebtstflush_512-Keeps random c = (
  refl,
  λ out.
      eight_stores_outside (c.r9 + c.r10 * 1) random (c.vec 0) c.mem (Outside-piece random c out),
)
