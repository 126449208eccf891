-- ===== src/Latency/Timing.antt =====
-- What a kernel of OptaneStudy/src/common.h returns: the readings of the time-stamp counter are
-- split over two registers each, kept across the timed code, and joined again.
use rw_sep.Prelude.{
  ℕ, ◌+◌, ◌*◌, ◌/◌, ◌%◌, ◌^◌, ◌<◌, bit_or, Bool, true, false, ◌&&◌, List, [], ◌∷◌, ◌++◌, ◌≡◌, refl,
  ◌∙◌, ap, arith, all,
}
use rw_sep.Prelude.Bits.{bit_or-shifted}
use rw_sep.Machine.{Instr, Reg, Cpu, put, exec, run, sub64}
use rw_sep.Latency.Macros.{Code, text, call, timing_beg, timing_end}

-- Instructions that leave `rsi`, `r8` and `r9` and the counter alone.
abbrev free : Reg → Bool
free Reg.rsi = false
free Reg.r8 = false
free Reg.r9 = false
free _ = true

abbrev pub keeps : Instr → Bool
keeps (Instr.mov d s) = free d
keeps (Instr.add d s) = free d
keeps (Instr.xor d s) = free d
keeps (Instr.and d s) = free d
keeps (Instr.or d s) = free d
keeps (Instr.clear d) = free d
keeps (Instr.movl d s) = free d
keeps (Instr.andl d n) = free d
keeps (Instr.shl d k) = free d
keeps (Instr.shr d) = free d
keeps (Instr.inc d) = free d
keeps (Instr.neg d) = free d
keeps (Instr.lea a d) = free d
keeps (Instr.mov_load a d) = free d
keeps (Instr.movq_load a d) = free d
keeps (Instr.movq_from_vec n d) = free d
keeps Instr.rdtscp = false
keeps _ = true

record Kept (c c' : Cpu) : Type 0 where
  r8 : c'.r8 ≡ c.r8
  r9 : c'.r9 ≡ c.r9
  clock : c'.clock ≡ c.clock
  ticks : c'.ticks ≡ c.ticks

put-Kept : (d : Reg) (v : ℕ) (c : Cpu) → free d ≡ true → Kept c (put d v c)
unfolding put
put-Kept d v c h = ground arith

exec-Kept : (i : Instr) (c : Cpu) → keeps i ≡ true → Kept c (exec i c)
unfolding exec
exec-Kept i c h = ground arith

run-Kept : (is : List Instr) (c : Cpu) → all keeps is ≡ true → Kept c (run is c)
unfolding run
run-Kept [] c h = ground arith
run-Kept (i ∷ is) c h = ground (arith, exec-Kept i c, run-Kept is (exec i c))

-- Instructions that do not read the counter.
abbrev pub untimed : Instr → Bool
untimed Instr.rdtscp = false
untimed _ = true

exec-untimed :
    (i : Instr) (c : Cpu)
    → untimed i ≡ true
    → ((exec i c).clock ≡ c.clock) × ((exec i c).ticks ≡ c.ticks)
unfolding exec
exec-untimed i c h = ground arith

run-untimed :
    (is : List Instr) (c : Cpu)
    → all untimed is ≡ true
    → ((run is c).clock ≡ c.clock) × ((run is c).ticks ≡ c.ticks)
unfolding run
run-untimed [] c h = (refl, refl)
run-untimed (i ∷ is) c h = ground (arith, exec-untimed i c, run-untimed is (exec i c))

pub run-append : (is js : List Instr) (c : Cpu) → run (is ++ js) c ≡ run js (run is c)
unfolding run
run-append [] js c = refl
run-append (i ∷ is) js c = run-append is js (exec i c)

-- The two halves of a reading, joined by `shl` and `or`, are the reading.
join_halves : (t : ℕ) → t < 2 ^ 64 → bit_or (t / 2 ^ 32 % 2 ^ 32 * 2 ^ 32 % 2 ^ 64) (t % 2 ^ 32) ≡ t
join_halves t h =
    let low : t / 2 ^ 32 % 2 ^ 32 * 2 ^ 32 % 2 ^ 64 ≡ t / 2 ^ 32 * 2 ^ 32 = omega arith in
    rw low (omega (arith, bit_or-shifted 32 (t / 2 ^ 32) (t % 2 ^ 32) (omega arith)))

record Begun (c c' : Cpu) : Type 0 where
  r8 : c'.r8 ≡ c.clock c.ticks % 2 ^ 32
  r9 : c'.r9 ≡ c.clock c.ticks / 2 ^ 32 % 2 ^ 32
  clock : c'.clock ≡ c.clock
  ticks : c'.ticks ≡ c.ticks + 1

timing_beg-Begun : (c : Cpu) → Begun c (run timing_beg c)
unfolding run timing_beg
timing_beg-Begun c = record { r8 = omega arith; r9 = omega arith; clock = refl; ticks = refl }

abbrev joined : ℕ → ℕ → ℕ
joined hi lo = bit_or (hi % 2 ^ 32 * 2 ^ 32 % 2 ^ 64) lo

timing_end-t1 : (c : Cpu) → (run timing_end c).t1 ≡ joined c.r9 c.r8
unfolding run timing_end
timing_end-t1 c = refl

timing_end-t2 :
    (c : Cpu)
    → (run timing_end c).t2
      ≡ bit_or (c.clock c.ticks / 2 ^ 32 % 2 ^ 32 * 2 ^ 32 % 2 ^ 64) (c.clock c.ticks % 2 ^ 32)
unfolding run timing_end
timing_end-t2 c = refl

-- The state before and after the timed code.
abbrev pub started : Code → Cpu → Cpu
started k c = run timing_beg (run k.before (record c { t1 = 0; t2 = 0 }))

abbrev pub finished : Code → Cpu → Cpu
finished k c = run k.timed (started k c)

pub run-text :
    (k : Code) (c : Cpu)
    → run (text k) (record c { t1 = 0; t2 = 0 }) ≡ run timing_end (finished k c)
unfolding text
run-text k c =
    run-append k.before (timing_beg ++ (k.timed ++ timing_end)) _
    ∙ run-append timing_beg (k.timed ++ timing_end) _
    ∙ run-append k.timed timing_end _

-- A kernel that is `timed_properly` reads the counter twice, and what it keeps of the first reading
-- survives the timed code.
abbrev pub timed_properly : Code → Bool
timed_properly k = all untimed k.before && all keeps k.timed

module _ (k : Code) (c : Cpu) (bounded : (n : ℕ) → c.clock n < 2 ^ 64)
    (proper : timed_properly k ≡ true) where
  abbrev prepared : Cpu
  prepared = run k.before (record c { t1 = 0; t2 = 0 })

  prepared-clock : (prepared.clock ≡ c.clock) × (prepared.ticks ≡ c.ticks)
  prepared-clock = run-untimed k.before (record c { t1 = 0; t2 = 0 }) (ground arith)

  kept : Kept (started k c) (finished k c)
  kept = run-Kept k.timed (started k c) (ground arith)

  begun : Begun prepared (started k c)
  begun = timing_beg-Begun prepared

  second : ((finished k c).clock ≡ c.clock) × ((finished k c).ticks ≡ c.ticks + 1)
  second = (
    kept.clock ∙ begun.clock ∙ prepared-clock.0,
    kept.ticks ∙ begun.ticks ∙ ap (λ (n : ℕ). n + 1) prepared-clock.1,
  )

  first : prepared.clock prepared.ticks ≡ c.clock c.ticks
  first = rw (prepared-clock.0, prepared-clock.1)

  finished-t1 : (run timing_end (finished k c)).t1 ≡ c.clock c.ticks
  finished-t1 =
      timing_end-t1 (finished k c)
      ∙ rw (kept.r8, kept.r9, begun.r8, begun.r9, first)
          (let low : c.clock c.ticks / 2 ^ 32 % 2 ^ 32 % 2 ^ 32
                ≡ c.clock c.ticks / 2 ^ 32 % 2 ^ 32 =
              omega arith in
            rw low (join_halves (c.clock c.ticks) (bounded c.ticks)))

  finished-t2 : (run timing_end (finished k c)).t2 ≡ c.clock (c.ticks + 1)
  finished-t2 =
      timing_end-t2 (finished k c)
      ∙ rw (second.0, second.1) (join_halves (c.clock (c.ticks + 1)) (bounded (c.ticks + 1)))

  -- Such a kernel returns the counter's advance from one reading to the next.
  pub call-elapsed : (call k c).0 ≡ sub64 (c.clock (c.ticks + 1)) (c.clock c.ticks)
  unfolding call
  call-elapsed = rw (run-text k c, finished-t1, finished-t2)
