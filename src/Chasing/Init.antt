-- ===== src/Chasing/Init.antt =====
-- `init_chasing_index` of OptaneStudy/src/memaccess.c builds a single cycle.
use rw_sep.Prelude.{
  ℕ, zero, suc, ◌+◌, ◌%◌, ◌<◌, ◌≡◌, ◌≢◌, refl, ap, ◌∙◌, true, false, ◌||◌, not, inl, inr,
  Bool-cases, Option, none, some, List, [], ◌∷◌, length, get_elem?, set, replicate,
  get_elem?-replicate, length-replicate, ◌==◌, if◌then◌else◌, arith,
}
use rw_sep.Chasing.{
  Rand, get_rand_loop, get_rand, rdrand_max_retry, Outcome, pick, link_loop, init_chasing_index,
}
use rw_sep.Chasing.Cycle.{IsCycle}
use rw_sep.Chasing.Trail.{IsTrail, link-IsTrail, IsTrail-IsCycle}

-- What a run may end in: a cycle, a return of 1, or no end within the fuel; never a fault.
abbrev pub Ensures : ℕ → Outcome → Type 0
Ensures csize (Outcome.done cindex pos) = (trail : List ℕ) × IsCycle csize cindex trail
Ensures csize Outcome.failed = Unit
Ensures csize Outcome.fault = ⊥
Ensures csize Outcome.out_of_fuel = Unit

-- A draw that succeeds is below the range.
abbrev IsBelow : ℕ → Rand → Type 0
IsBelow range (Rand.drawn rd pos) = rd < range
IsBelow range (Rand.exhausted pos) = Unit
IsBelow range Rand.div_fault = ⊥

get_rand_loop-IsBelow :
    (rdrand : ℕ → Option ℕ) (retries n pos : ℕ)
    → IsBelow (suc n) (get_rand_loop rdrand retries (suc n) pos)
unfolding get_rand_loop
get_rand_loop-IsBelow rdrand zero n pos = tt
get_rand_loop-IsBelow rdrand (suc retries) n pos =
    go (rdrand pos) (get_rand_loop-IsBelow rdrand retries n (pos + 1))
  where
    go :
        (o : Option ℕ)
        → IsBelow (suc n) (get_rand_loop rdrand retries (suc n) (pos + 1))
        → IsBelow (suc n) (elim o [
          | none ↦ get_rand_loop rdrand retries (suc n) (pos + 1)
          | some v ↦ if suc n == 0 then Rand.div_fault else Rand.drawn (v % suc n) (pos + 1)
        ])
    go none h = h
    go (some v) h = let e : (suc n == 0) ≡ false = ground arith in rw e (omega arith)

get_rand-IsBelow :
    (rdrand : ℕ → Option ℕ) (n pos : ℕ) → IsBelow (suc n) (get_rand rdrand (suc n) pos)
unfolding get_rand
get_rand-IsBelow rdrand n pos = get_rand_loop-IsBelow rdrand rdrand_max_retry n pos

get_elem?-ne-none : (xs : List ℕ) (i : ℕ) → i < length xs → get_elem? xs i ≢ none
get_elem?-ne-none [] i h = absurd (omega arith)
get_elem?-ne-none (x ∷ xs) zero h = λ e. cc
get_elem?-ne-none (x ∷ xs) (suc i) h = get_elem?-ne-none xs i (omega arith)

module _ (rdrand : ℕ → Option ℕ) (n : ℕ) where
  -- If whatever follows a free position is fine, then so is the draw of one.
  pick-Ensures :
      (fuel : ℕ) (cindex : List ℕ) (curr_pos pos : ℕ) (next : ℕ → ℕ → Outcome)
      → length cindex ≡ suc n
      → ((next_pos pos' : ℕ)
          → next_pos < suc n
          → get_elem? cindex next_pos ≡ some 0
          → next_pos ≢ curr_pos
          → Ensures (suc n) (next next_pos pos'))
      → Ensures (suc n) (pick fuel rdrand (suc n) cindex curr_pos pos next)
  unfolding pick
  pick-Ensures zero cindex curr_pos pos next size follow = tt
  pick-Ensures (suc fuel) cindex curr_pos pos next size follow =
      drawn_case (get_rand rdrand (suc n) pos) (get_rand-IsBelow rdrand n pos)
        (λ p. pick-Ensures fuel cindex curr_pos p next size follow)
    where
      free_case :
          (rd pos' v : ℕ)
          → rd < suc n
          → get_elem? cindex rd ≡ some v
          → Ensures (suc n) (pick fuel rdrand (suc n) cindex curr_pos pos' next)
          → Ensures (suc n) (elim (not (v == 0) || rd == curr_pos) [
            | true ↦ pick fuel rdrand (suc n) cindex curr_pos pos' next
            | false ↦ next rd pos'
          ])
      free_case rd pos' v below holds again = elim (Bool-cases (not (v == 0) || rd == curr_pos)) [
        | inl busy ↦ rw busy again
        | inr free ↦
            rw free (follow rd pos' below (holds ∙ ap some (ground arith)) (λ e. ground arith))
      ]

      read_case :
          (rd pos' : ℕ) (o : Option ℕ)
          → rd < suc n
          → get_elem? cindex rd ≡ o
          → Ensures (suc n) (pick fuel rdrand (suc n) cindex curr_pos pos' next)
          → Ensures (suc n) (elim o [
            | none ↦ Outcome.fault
            | some v ↦ elim (not (v == 0) || rd == curr_pos) [
              | true ↦ pick fuel rdrand (suc n) cindex curr_pos pos' next
              | false ↦ next rd pos'
            ]
          ])
      read_case rd pos' none below holds again =
          absurd (get_elem?-ne-none cindex rd (rw size below) holds)
      read_case rd pos' (some v) below holds again = free_case rd pos' v below holds again

      drawn_case :
          (r : Rand)
          → IsBelow (suc n) r
          → ((p : ℕ) → Ensures (suc n) (pick fuel rdrand (suc n) cindex curr_pos p next))
          → Ensures (suc n) (elim r [
            | Rand.exhausted pos' ↦ Outcome.failed
            | Rand.div_fault ↦ Outcome.fault
            | Rand.drawn rd pos' ↦ elim (get_elem? cindex rd) [
              | none ↦ Outcome.fault
              | some v ↦ elim (not (v == 0) || rd == curr_pos) [
                | true ↦ pick fuel rdrand (suc n) cindex curr_pos pos' next
                | false ↦ next rd pos'
              ]
            ]
          ])
      drawn_case (Rand.drawn rd pos') below again =
          read_case rd pos' (get_elem? cindex rd) below refl (again pos')
      drawn_case (Rand.exhausted pos') below again = tt
      drawn_case Rand.div_fault below again = below

  link_loop-Ensures :
      (fuel left : ℕ) (cindex : List ℕ) (curr_pos pos : ℕ) (prev : List ℕ)
      → IsTrail (suc n) cindex curr_pos prev
      → length prev + left ≡ n
      → Ensures (suc n) (link_loop rdrand fuel (suc n) left cindex curr_pos pos)
  unfolding link_loop
  link_loop-Ensures fuel zero cindex curr_pos pos prev t e =
      (curr_pos ∷ prev, IsTrail-IsCycle (suc n) cindex curr_pos prev t (omega arith))
  link_loop-Ensures fuel (suc left) cindex curr_pos pos prev t e =
      pick-Ensures fuel cindex curr_pos pos
        (λ next_pos pos'.
          link_loop rdrand fuel (suc n) left (set cindex curr_pos next_pos) next_pos pos')
        t.size
        (λ next_pos pos' below free ne.
          link_loop-Ensures fuel left (set cindex curr_pos next_pos) next_pos pos' (curr_pos ∷ prev)
            (link-IsTrail (suc n) cindex curr_pos next_pos prev t below free ne) (omega arith))

  pub start-IsTrail : IsTrail (suc n) (replicate (suc n) 0) 0 []
  start-IsTrail = record {
    size = length-replicate (suc n) 0;
    links = refl;
    distinct = (tt, tt);
    in_range = (omega arith, tt);
    linked = tt;
    fresh = λ x h out. get_elem?-replicate (suc n) x 0 h;
  }

  -- For a size above 0, whatever the random numbers and the fuel, a run does not divide by 0 or
  -- leave the array, and if it returns 0 then the index is one cycle: from position 0 it leads
  -- through all `csize` positions, each once, and back to 0.
  pub init_chasing_index-Ensures :
      (fuel pos : ℕ) → Ensures (suc n) (init_chasing_index rdrand fuel (suc n) pos)
  unfolding init_chasing_index
  init_chasing_index-Ensures fuel pos =
      link_loop-Ensures fuel n (replicate (suc n) 0) 0 pos [] start-IsTrail (omega arith)
