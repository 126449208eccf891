-- ===== src/Prelude/Loops.antt =====
-- The loop of the assembly kernels, `label: body; cmp a, b; jl label`: the body runs before the
-- test. The fuel counts rounds, and `none` means that it ran out.
use Prim.Native.Nat.{ℕ, zero, suc, ◌+◌, ◌≤◌, ◌<◌}
use mathlib.Core.Path.{◌≡◌, ap, ◌∙◌}
use mathlib.Core.Bool.{Bool, true, false}
use mathlib.Core.Option.{Option, none, some}
use native.Mathlib.Omega.{arith}

infixl 5 ◌>>=◌
abbrev pub ◌>>=◌ {ℓ κ} : {A : Type ℓ} {B : Type κ} → Option A → (A → Option B) → Option B
none >>= f = none
some a >>= f = f a

module _ {ℓ} {S : Type ℓ} where
  -- One round and what follows it: again, or out.
  abbrev pub decide_round : (S → Option S) → (S → Bool) → S → Option S
  decide_round rest again s = elim (again s) [ true ↦ rest s | false ↦ some s ]

  pub do_while : ℕ → (S → Option S) → (S → Bool) → S → Option S
  do_while zero body again s = none
  do_while (suc f) body again s = body s >>= decide_round (do_while f body again) again

  decide_round-true :
      (rest : S → Option S) (again : S → Bool) (s : S)
      → again s ≡ true
      → decide_round rest again s ≡ rest s
  decide_round-true rest again s h = rw (h, decide_round)

  decide_round-false :
      (rest : S → Option S) (again : S → Bool) (s : S)
      → again s ≡ false
      → decide_round rest again s ≡ some s
  decide_round-false rest again s h = rw (h, decide_round)

  -- A loop whose rounds lead through the states `at i`, …, `at (n + 1)`, where the test holds after
  -- each but the last, ends in the last, given more fuel than rounds.
  pub do_while_run :
      (body : S → Option S) (again : S → Bool) (at : ℕ → S) (n : ℕ)
      → ((j : ℕ) → j ≤ n → body (at j) ≡ some (at (suc j)))
      → ((j : ℕ) → j < n → again (at (suc j)) ≡ true)
      → again (at (suc n)) ≡ false
      → (f i left : ℕ) → left < f
      → i + left ≡ n
      → do_while f body again (at i) ≡ some (at (suc n))
  unfolding do_while
  do_while_run body again at n round goes_on stops zero i left enough e = absurd (omega arith)
  do_while_run body again at n round goes_on stops (suc f) i zero enough e =
      let e' : i ≡ n = omega arith in
      rw (round i (omega arith)) (
        decide_round-false (do_while f body again) again (at (suc i)) (rw e' stops)
        ∙ ap (λ k. some (at (suc k))) e')
  do_while_run body again at n round goes_on stops (suc f) i (suc left) enough e =
      rw (round i (omega arith)) (
        decide_round-true (do_while f body again) again (at (suc i)) (goes_on i (omega arith))
        ∙ do_while_run body again at n round goes_on stops f (suc i) left (omega arith)
            (omega arith))

  -- `f` applied `n` times.
  unfoldable pub iterate : (S → S) → ℕ → S → S
  iterate f zero s = s
  iterate f (suc n) s = f (iterate f n s)

  -- A loop whose body is total makes as many rounds as its test asks for.
  pub do_while-iterate :
      (body : S → Option S) (f : S → S) (again : S → Bool) (s : S) (n : ℕ)
      → ((t : S) → body t ≡ some (f t))
      → ((j : ℕ) → j < n → again (iterate f (suc j) s) ≡ true)
      → again (iterate f (suc n) s) ≡ false
      → (fuel : ℕ) → n < fuel
      → do_while fuel body again s ≡ some (iterate f (suc n) s)
  unfolding iterate
  do_while-iterate body f again s n total goes_on stops fuel enough =
      do_while_run body again (λ k. iterate f k s) n (λ j _. total (iterate f j s)) goes_on stops
        fuel 0 n enough (omega arith)

  -- A loop with an invariant that counts its rounds, whose test holds after each of them but round
  -- `n`, ends with the invariant of n + 1 rounds, given more fuel than rounds.
  pub do_while_invariant :
      (body : S → Option S) (again : S → Bool) (Inv : ℕ → S → Type 0) (n : ℕ)
      → ((i : ℕ) (s : S) → i ≤ n → Inv i s → (s' : S) × (body s ≡ some s') × Inv (suc i) s')
      → ((i : ℕ) (s : S) → i < n → Inv (suc i) s → again s ≡ true)
      → ((s : S) → Inv (suc n) s → again s ≡ false)
      → (f i left : ℕ) (s : S) → left < f
      → i + left ≡ n
      → Inv i s
      → (s' : S) × (do_while f body again s ≡ some s') × Inv (suc n) s'
  unfolding do_while
  do_while_invariant body again Inv n round goes_on stops zero i left s enough e h =
      absurd (omega arith)
  do_while_invariant body again Inv n round goes_on stops (suc f) i zero s enough e h =
      let (s', returns, h') = round i s (omega arith) h in
      let last : i ≡ n = omega arith in
      let h'' : Inv (suc n) s' = rw last at h' in
      (s', rw returns (decide_round-false (do_while f body again) again s' (stops s' h'')), h'')
  do_while_invariant body again Inv n round goes_on stops (suc f) i (suc left) s enough e h =
      let (s1, returns, h1) = round i s (omega arith) h in
      let (s', ends, h') =
        do_while_invariant body again Inv n round goes_on stops f (suc i) left s1 (omega arith)
          (omega arith) h1 in
      (
        s',
        rw returns (
            decide_round-true (do_while f body again) again s1 (goes_on i s1 (omega arith) h1)
            ∙ ends),
        h',
      )
