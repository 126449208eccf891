-- ===== src/Prelude/Bits.antt =====
-- `bit_or`, `bit_and` and `bit_xor` at variables: one equation for the lowest digit, and what the
-- shifts and masks of the assembly need.
use Prim.Native.Nat.{
  ℕ, zero, suc, ◌+◌, ◌*◌, ◌/◌, ◌%◌, ◌^◌, ◌≤◌, ◌<◌, min, max, differ, digits, bitwise, bit_and,
  bit_or, bit_xor, bit_and-bitwise, bit_or-bitwise, bit_xor-bitwise,
}
use mathlib.Core.Path.{◌≡◌, refl, ap}
use native.Mathlib.Nat.{le_refl, pow-suc, mul_comm, div-one, div-div-eq-div-mul}
use native.Mathlib.Omega.{arith}

-- More fuel than the first number needs changes nothing.
digits_agree :
    (z : ℕ → ℕ) (f : ℕ → ℕ → ℕ) (n m a b : ℕ) → a ≤ n → a ≤ m → digits z f n a b ≡ digits z f m a b
digits_agree z f zero zero a b p q = refl
digits_agree z f zero (suc m) zero b p q = refl
digits_agree z f zero (suc m) (suc a) b p q = absurd (omega arith)
digits_agree z f (suc n) zero zero b p q = refl
digits_agree z f (suc n) zero (suc a) b p q = absurd (omega arith)
digits_agree z f (suc n) (suc m) zero b p q = refl
digits_agree z f (suc n) (suc m) (suc a) b p q =
    rw (digits_agree z f n m (suc a / 2) (b / 2) (omega arith) (omega arith))

bitwise-step :
    (z : ℕ → ℕ) (f : ℕ → ℕ → ℕ) (a b : ℕ)
    → bitwise z f (suc a) b ≡ bitwise z f (suc a / 2) (b / 2) * 2 + f (suc a % 2) (b % 2)
bitwise-step z f a b =
    rw (digits_agree z f a (suc a / 2) (suc a / 2) (b / 2) (omega arith) (le_refl _))

pub bit_or_low : (a b : ℕ) → bit_or a b ≡ bit_or (a / 2) (b / 2) * 2 + max (a % 2) (b % 2)
bit_or_low zero b = simp bit_or-bitwise (omega arith)
bit_or_low (suc a) b = simp bit_or-bitwise (bitwise-step (λ y. y) max a b)

pub bit_and_low : (a b : ℕ) → bit_and a b ≡ bit_and (a / 2) (b / 2) * 2 + min (a % 2) (b % 2)
bit_and_low zero b = simp bit_and-bitwise (omega arith)
bit_and_low (suc a) b = simp bit_and-bitwise (bitwise-step (λ y. 0) min a b)

pub bit_xor_low : (a b : ℕ) → bit_xor a b ≡ bit_xor (a / 2) (b / 2) * 2 + differ (a % 2) (b % 2)
bit_xor_low zero b = simp bit_xor-bitwise (ground arith)
bit_xor_low (suc a) b = simp bit_xor-bitwise (bitwise-step (λ y. y) differ a b)

bit_or-zero_below : (n a : ℕ) → a ≤ n → bit_or a 0 ≡ a
bit_or-zero_below n zero h = refl
bit_or-zero_below zero (suc a) h = absurd (omega arith)
bit_or-zero_below (suc n) (suc a) h =
    omega (arith, bit_or_low (suc a) 0, bit_or-zero_below n (suc a / 2) (omega arith))

mul-two_pow-suc : (q k : ℕ) → q * 2 ^ suc k ≡ 2 * (q * 2 ^ k)
mul-two_pow-suc q k = omega (arith, ap (λ (t : ℕ). q * t) (pow-suc 2 k))

-- A word shifted left takes the low bits of a smaller one: `|` is `+` there.
pub bit_or-shifted : (k q r : ℕ) → r < 2 ^ k → bit_or (q * 2 ^ k) r ≡ q * 2 ^ k + r
bit_or-shifted zero q r fits = ground (arith, bit_or-zero_below q q)
bit_or-shifted (suc k) q r fits = ground (
  arith,
  pow-suc 2 k,
  mul-two_pow-suc q k,
  bit_or_low (q * 2 ^ suc k) r,
  bit_or-shifted k q (r / 2) (ground (arith, pow-suc 2 k)),
)

bit_and-zero_below : (n a : ℕ) → a ≤ n → bit_and a 0 ≡ 0
bit_and-zero_below n zero h = refl
bit_and-zero_below zero (suc a) h = absurd (omega arith)
bit_and-zero_below (suc n) (suc a) h =
    omega (arith, bit_and_low (suc a) 0, bit_and-zero_below n (suc a / 2) (omega arith))

pub bit_and-one : (a : ℕ) → bit_and a 1 ≡ a % 2
bit_and-one a = omega (arith, bit_and_low a 1, bit_and-zero_below (a / 2) (a / 2) (le_refl _))

differ_twice : (x y : ℕ) → x < 2 → y < 2 → (differ (differ x y) y ≡ x) × (differ x y < 2)
differ_twice zero zero p q = (refl, omega arith)
differ_twice zero (suc zero) p q = (refl, omega arith)
differ_twice zero (suc (suc y)) p q = absurd (omega arith)
differ_twice (suc zero) zero p q = (refl, omega arith)
differ_twice (suc zero) (suc zero) p q = (refl, omega arith)
differ_twice (suc zero) (suc (suc y)) p q = absurd (omega arith)
differ_twice (suc (suc x)) y p q = absurd (omega arith)

-- A second `^` by the same word undoes the first.
pub bit_xor_twice : (n a b : ℕ) → a ≤ n → b ≤ n → bit_xor (bit_xor a b) b ≡ a
bit_xor_twice zero a b p q =
    let ea : a ≡ 0 = omega arith in let eb : b ≡ 0 = omega arith in rw (ea, eb)
bit_xor_twice (suc n) a b p q = ground (
  arith,
  differ_twice (a % 2) (b % 2),
  bit_xor_low a b,
  bit_xor_low (bit_xor a b) b,
  bit_xor_twice n (a / 2) (b / 2) (omega arith) (omega arith),
)

-- `^` keeps within a width, and acts on the bits above it by themselves.
pub bit_xor-lt : (k a b : ℕ) → a < 2 ^ k → b < 2 ^ k → bit_xor a b < 2 ^ k
bit_xor-lt zero a b p q =
    let ea : a ≡ 0 = omega arith in let eb : b ≡ 0 = omega arith in rw (ea, eb) (omega arith)
bit_xor-lt (suc k) a b p q = ground (
  arith,
  pow-suc 2 k,
  differ_twice (a % 2) (b % 2),
  bit_xor_low a b,
  bit_xor-lt k (a / 2) (b / 2),
)

div-pow-suc : (n k : ℕ) → n / 2 ^ suc k ≡ n / 2 / 2 ^ k
div-pow-suc n k = rw (pow-suc, mul_comm (2 ^ k) 2, ← div-div-eq-div-mul)

pub bit_xor-div : (k a b : ℕ) → bit_xor a b / 2 ^ k ≡ bit_xor (a / 2 ^ k) (b / 2 ^ k)
bit_xor-div zero a b = rw (div-one, div-one, div-one)
bit_xor-div (suc k) a b =
    let half : bit_xor a b / 2 ≡ bit_xor (a / 2) (b / 2) =
      omega (arith, bit_xor_low a b, differ_twice (a % 2) (b % 2)) in
    rw (div-pow-suc (bit_xor a b) k, half, div-pow-suc a k, div-pow-suc b k)
      (bit_xor-div k (a / 2) (b / 2))

differ_comm : (x y : ℕ) → x < 2 → y < 2 → differ x y ≡ differ y x
differ_comm zero zero p q = refl
differ_comm zero (suc zero) p q = refl
differ_comm zero (suc (suc y)) p q = absurd (omega arith)
differ_comm (suc zero) zero p q = refl
differ_comm (suc zero) (suc zero) p q = refl
differ_comm (suc zero) (suc (suc y)) p q = absurd (omega arith)
differ_comm (suc (suc x)) y p q = absurd (omega arith)

pub bit_xor_comm : (n a b : ℕ) → a ≤ n → b ≤ n → bit_xor a b ≡ bit_xor b a
bit_xor_comm zero a b p q =
    let ea : a ≡ 0 = omega arith in let eb : b ≡ 0 = omega arith in rw (ea, eb)
bit_xor_comm (suc n) a b p q = omega (
  arith,
  differ_comm (a % 2) (b % 2) (omega arith) (omega arith),
  bit_xor_low a b,
  bit_xor_low b a,
  bit_xor_comm n (a / 2) (b / 2) (omega arith) (omega arith),
)

-- A mask bounds what passes it.
pub bit_and-le : (n a b : ℕ) → a ≤ n → bit_and a b ≤ b
bit_and-le n zero b h = simp bit_and-bitwise (omega arith)
bit_and-le zero (suc a) b h = absurd (omega arith)
bit_and-le (suc n) (suc a) b h =
    omega (arith, bit_and_low (suc a) b, bit_and-le n (suc a / 2) (b / 2) (omega arith))

-- A mask of whole lines leaves whole lines.
pub bit_and-mod_64 : (x m : ℕ) → m % 64 ≡ 0 → bit_and x m % 64 ≡ 0
bit_and-mod_64 x m h = omega (
  arith,
  bit_and_low x m,
  bit_and_low (x / 2) (m / 2),
  bit_and_low (x / 2 / 2) (m / 2 / 2),
  bit_and_low (x / 2 / 2 / 2) (m / 2 / 2 / 2),
  bit_and_low (x / 2 / 2 / 2 / 2) (m / 2 / 2 / 2 / 2),
  bit_and_low (x / 2 / 2 / 2 / 2 / 2) (m / 2 / 2 / 2 / 2 / 2),
)
