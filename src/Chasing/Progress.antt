-- ===== src/Chasing/Progress.antt =====
-- When `init_chasing_index` of OptaneStudy/src/memaccess.c succeeds and when it gives up.
use rw_sep.Prelude.{
  ℕ, zero, suc, ◌+◌, ◌%◌, ◌<◌, ◌≡◌, ◌≢◌, sym, ap, ◌∙◌, false, Option, none, some, List, [], ◌∷◌,
  All, length, get_elem?, set, replicate, ◌==◌, arith,
}
use native.Mathlib.Nat.{mod-eq_of_lt}
use rw_sep.Chasing.{
  Rand, get_rand_loop, get_rand, rdrand_max_retry, Outcome, pick, link_loop, init_chasing_index,
}
use rw_sep.Chasing.Cycle.{NotIn, Distinct, IsCycle}
use rw_sep.Chasing.Trail.{IsTrail, link-IsTrail, IsTrail-IsCycle}
use rw_sep.Chasing.Init.{start-IsTrail}

-- The executions of `rdrand` from number `pos` on give these values.
abbrev pub Feeds : (ℕ → Option ℕ) → ℕ → List ℕ → Type 0
Feeds rdrand pos [] = Unit
Feeds rdrand pos (x ∷ xs) = (rdrand pos ≡ some x) × Feeds rdrand (pos + 1) xs

-- `xs` behind `ys`, last first.
abbrev pub reverse_onto : List ℕ → List ℕ → List ℕ
reverse_onto [] ys = ys
reverse_onto (x ∷ xs) ys = reverse_onto xs (x ∷ ys)

module _ (rdrand : ℕ → Option ℕ) (n : ℕ) where
  get_rand_drawn :
      (x pos : ℕ)
      → rdrand pos ≡ some x
      → x < suc n
      → get_rand rdrand (suc n) pos ≡ Rand.drawn x (pos + 1)
  unfolding get_rand get_rand_loop
  get_rand_drawn x pos e below =
      let positive : (suc n == 0) ≡ false = ground arith in
      let same : x % suc n ≡ x = mod-eq_of_lt below in rw (e, positive, same)

  pick_free :
      (fuel : ℕ) (cindex : List ℕ) (curr_pos x pos : ℕ) (next : ℕ → ℕ → Outcome)
      → rdrand pos ≡ some x
      → x < suc n
      → get_elem? cindex x ≡ some 0
      → x ≢ curr_pos
      → pick (suc fuel) rdrand (suc n) cindex curr_pos pos next ≡ next x (pos + 1)
  unfolding pick
  pick_free fuel cindex curr_pos x pos next e below free ne =
      let other : (x == curr_pos) ≡ false = ground arith in
      rw (get_rand_drawn x pos e below, free, other)

  link_loop_done :
      (fuel : ℕ) (order : List ℕ) (cindex : List ℕ) (curr_pos pos : ℕ) (prev : List ℕ)
      → IsTrail (suc n) cindex curr_pos prev
      → length prev + length order ≡ n
      → Feeds rdrand pos order
      → All (λ x. x < suc n) order
      → Distinct order
      → All (λ x. NotIn x (curr_pos ∷ prev)) order
      → (cindex' : List ℕ) × (link_loop rdrand (suc fuel) (suc n) (length order) cindex curr_pos pos
          ≡ Outcome.done cindex' (pos + length order))
        × IsCycle (suc n) cindex' (reverse_onto order (curr_pos ∷ prev))
  unfolding link_loop
  link_loop_done fuel [] cindex curr_pos pos prev t e feeds below distinct off = (
    cindex,
    ap (Outcome.done cindex) (omega arith),
    IsTrail-IsCycle (suc n) cindex curr_pos prev t (omega arith),
  )
  link_loop_done fuel (x ∷ order) cindex curr_pos pos prev t e feeds below distinct off =
      let free = t.fresh x below.0 off.0.1 in
      let (cindex', returns, cycle) =
        link_loop_done fuel order (set cindex curr_pos x) x (pos + 1) (curr_pos ∷ prev)
          (link-IsTrail (suc n) cindex curr_pos x prev t below.0 free off.0.0) (omega arith) feeds.1
          below.1 distinct.1 (off-cons order x (curr_pos ∷ prev) distinct.0 off.1) in
      (
        cindex',
        pick_free fuel cindex curr_pos x pos
              (λ next_pos pos'.
                link_loop rdrand (suc fuel) (suc n) (length order) (set cindex curr_pos next_pos)
                  next_pos pos')
              feeds.0 below.0 free off.0.0
            ∙ returns
            ∙ ap (Outcome.done cindex') (omega arith),
        cycle,
      )
    where
      off-cons :
          (xs : List ℕ) (y : ℕ) (ys : List ℕ)
          → NotIn y xs
          → All (λ z. NotIn z ys) xs
          → All (λ z. NotIn z (y ∷ ys)) xs
      off-cons [] y ys out h = tt
      off-cons (z ∷ xs) y ys out h = ((λ e. out.0 (sym e), h.0), off-cons xs y ys out.1 h.1)

  -- Every cycle can come out: if the next random numbers are the `n` other positions, in any order
  -- and each once, then with fuel for one try per round the function returns 0, and the index leads
  -- from 0 through these positions in this order.
  pub init_chasing_index_done :
      (fuel pos : ℕ) (order : List ℕ)
      → length order ≡ n
      → Feeds rdrand pos order
      → All (λ x. x < suc n) order
      → Distinct order
      → NotIn 0 order
      → (cindex : List ℕ) × (init_chasing_index rdrand (suc fuel) (suc n) pos
          ≡ Outcome.done cindex (pos + n))
        × IsCycle (suc n) cindex (reverse_onto order (0 ∷ []))
  unfolding init_chasing_index
  init_chasing_index_done fuel pos order size feeds below distinct no_zero =
      let (cindex, returns, cycle) =
        link_loop_done fuel order (replicate (suc n) 0) 0 pos [] (start-IsTrail rdrand n)
          (omega arith) feeds below distinct (off-zero order no_zero) in
      (
        cindex,
        ap (λ k. link_loop rdrand (suc fuel) (suc n) k (replicate (suc n) 0) 0 pos) (sym size)
            ∙ returns
            ∙ ap (λ k. Outcome.done cindex (pos + k)) size,
        cycle,
      )
    where
      off-zero : (xs : List ℕ) → NotIn 0 xs → All (λ z. NotIn z (0 ∷ [])) xs
      off-zero [] h = tt
      off-zero (x ∷ xs) h = ((λ e. h.0 (sym e), tt), off-zero xs h.1)

  get_rand_loop_exhausted :
      (retries pos : ℕ)
      → ((k : ℕ) → k < retries → rdrand (pos + k) ≡ none)
      → get_rand_loop rdrand retries (suc n) pos ≡ Rand.exhausted (pos + retries)
  unfolding get_rand_loop
  get_rand_loop_exhausted zero pos dry = ap Rand.exhausted (omega arith)
  get_rand_loop_exhausted (suc retries) pos dry =
      let at_pos : pos + 0 ≡ pos = omega arith in
      let now : rdrand pos ≡ none = rw at_pos at (dry 0 (omega arith)) in
      rw (now, get_rand_loop)
        (get_rand_loop_exhausted retries (pos + 1) (λ k h.
            let shift : pos + 1 + k ≡ pos + suc k = omega arith in
            rw shift (dry (suc k) (omega arith)))
          ∙ ap Rand.exhausted (omega arith))

-- With at least two positions, the function returns 1 when `rdrand` fails as often in a row as
-- `get_rand` retries.
pub init_chasing_index_failed :
    (rdrand : ℕ → Option ℕ) (n fuel pos : ℕ)
    → ((k : ℕ) → k < rdrand_max_retry → rdrand (pos + k) ≡ none)
    → init_chasing_index rdrand (suc fuel) (suc (suc n)) pos ≡ Outcome.failed
unfolding init_chasing_index link_loop pick get_rand
init_chasing_index_failed rdrand n fuel pos dry =
    rw (get_rand_loop_exhausted rdrand (suc n) rdrand_max_retry pos dry)
