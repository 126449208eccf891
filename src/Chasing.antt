-- ===== src/Chasing.antt =====
-- Pointer chasing: `get_rand` and `init_chasing_index` of OptaneStudy/src/memaccess.c.
-- The instruction `rdrand` is a parameter: `rdrand k` is the outcome of its k-th execution, with no
-- value where it leaves the carry flag clear.
pub mod Cycle
pub mod Trail
pub mod Init
pub mod Progress
use rw_sep.Prelude.{
  ℕ, zero, suc, ◌+◌, ◌-◌, ◌%◌, Bool, true, false, ◌||◌, not, Option, none, some, List, get_elem?,
  set, replicate, ◌==◌, if◌then◌else◌,
}

abbrev pub rdrand_max_retry : ℕ
rdrand_max_retry = 32

-- `drawn` is a return of 0 with `*rd`, `exhausted` a return of 1; `div_fault` is the division by a
-- range of 0. Each holds the number of `rdrand` executions so far.
pub data Rand : Type 0 where
  drawn : (rd pos : ℕ) → Rand
  exhausted : (pos : ℕ) → Rand
  div_fault : Rand

-- `retries` are the rounds left.
unfoldable pub get_rand_loop : (ℕ → Option ℕ) → (retries range pos : ℕ) → Rand
get_rand_loop rdrand zero range pos = Rand.exhausted pos
get_rand_loop rdrand (suc retries) range pos =
    let again = get_rand_loop rdrand retries range (pos + 1) in
    elim (rdrand pos) [
      | none ↦ again
      | some v ↦ if range == 0 then Rand.div_fault else Rand.drawn (v % range) (pos + 1)
    ]

unfoldable pub get_rand : (ℕ → Option ℕ) → (range pos : ℕ) → Rand
unfolding get_rand_loop
get_rand rdrand range pos = get_rand_loop rdrand rdrand_max_retry range pos

-- `done` is a return of 0 with the index that was built, `failed` a return of 1. `fault` is an
-- access outside `cindex` or a division by 0, and `out_of_fuel` a run that is still going on.
pub data Outcome : Type 0 where
  done : (cindex : List ℕ) → (pos : ℕ) → Outcome
  failed fault out_of_fuel : Outcome

-- `do … while ((cindex[next_pos] != 0) || (next_pos == curr_pos))`, and what follows with next_pos.
unfoldable pub pick :
    ℕ → (ℕ → Option ℕ) → (csize : ℕ) → List ℕ → (curr_pos pos : ℕ) → (ℕ → ℕ → Outcome) → Outcome
unfolding get_rand
pick zero rdrand csize cindex curr_pos pos next = Outcome.out_of_fuel
pick (suc fuel) rdrand csize cindex curr_pos pos next = elim (get_rand rdrand csize pos) [
  | Rand.exhausted pos' ↦ Outcome.failed
  | Rand.div_fault ↦ Outcome.fault
  | Rand.drawn next_pos pos' ↦ elim (get_elem? cindex next_pos) [
    | none ↦ Outcome.fault
    | some v ↦ elim (not (v == 0) || next_pos == curr_pos) [
      | true ↦ pick fuel rdrand csize cindex curr_pos pos' next
      | false ↦ next next_pos pos'
    ]
  ]
]

-- The `for` loop, with `left` rounds to go; `fuel` bounds the tries of each round.
unfoldable pub link_loop :
    (ℕ → Option ℕ) → (fuel csize left : ℕ) → List ℕ → (curr_pos pos : ℕ) → Outcome
unfolding pick
link_loop rdrand fuel csize zero cindex curr_pos pos = Outcome.done cindex pos
link_loop rdrand fuel csize (suc left) cindex curr_pos pos =
    pick fuel rdrand csize cindex curr_pos pos (λ next_pos pos'.
      link_loop rdrand fuel csize left (set cindex curr_pos next_pos) next_pos pos')

-- csize - 1 is unsigned: for a csize of 0 the loop is entered, and the first draw divides by 0 (or
-- fails before that).
unfoldable pub init_chasing_index : (ℕ → Option ℕ) → (fuel csize pos : ℕ) → Outcome
unfolding link_loop
init_chasing_index rdrand fuel zero pos =
    pick fuel rdrand 0 (replicate 0 0) 0 pos (λ _ _. Outcome.fault)
init_chasing_index rdrand fuel (suc n) pos =
    link_loop rdrand fuel (suc n) n (replicate (suc n) 0) 0 pos
