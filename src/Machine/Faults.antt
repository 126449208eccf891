-- ===== src/Machine/Faults.antt =====
-- Which accesses a processor carries out. The vector instructions that the kernels use, vmovdqa,
-- vmovdqa64, vmovntdq and vmovntdqa, fault at an address that is not a multiple of the size of
-- their register. `exec` records such an access like any other; a trace without one is that of a
-- run which meets no fault. An access of a word or less may stand anywhere.
use rw_sep.Prelude.{
  ℕ, zero, suc, ◌*◌, ◌/◌, ◌%◌, ◌<◌, ◌≡◌, ◌⊎◌, List, ◌++◌, All, All-append, ap, concat_upto, arith,
}
use rw_sep.Machine.{Event, add64}

abbrev InPlace : (address bytes : ℕ) → Type 0
InPlace a n = (n < 32) ⊎ (a % n ≡ 0)

abbrev pub Fits : Event → Type 0
Fits (Event.load a n) = InPlace a n
Fits (Event.nt_load a n) = InPlace a n
Fits (Event.store a n) = InPlace a n
Fits (Event.nt_store a n) = InPlace a n
Fits _ = Unit

abbrev pub NoFault : List Event → Type 0
NoFault = All Fits

pub NoFault-append : (es fs : List Event) → NoFault es → NoFault fs → NoFault (es ++ fs)
NoFault-append = All-append Fits

pub NoFault-concat_upto :
    (part : ℕ → List Event) (n : ℕ) → ((i : ℕ) → NoFault (part i)) → NoFault (concat_upto part n)
unfolding concat_upto
NoFault-concat_upto part zero h = tt
NoFault-concat_upto part (suc n) h =
    NoFault-append (concat_upto part n) (part n) (NoFault-concat_upto part n h) (h n)

-- An address that a 64-byte access may have.
abbrev pub IsAligned : ℕ → Type 0
IsAligned a = a % 64 ≡ 0

-- The addresses of the pieces are aligned if the start and the stride are.
pub piece-IsAligned : (a j : ℕ) → IsAligned a → IsAligned (add64 a (64 * j))
piece-IsAligned a j h = omega arith

pub round-IsAligned : (a skip i : ℕ) → IsAligned a → IsAligned skip → IsAligned (add64 a (skip * i))
round-IsAligned a skip i h k =
    let e : skip ≡ 64 * (skip / 64) = omega arith in omega (arith, ap (λ (t : ℕ). t * i) e)
