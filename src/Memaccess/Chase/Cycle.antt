-- ===== src/Memaccess/Chase/Cycle.antt =====
-- `chasing_storeclwb` of OptaneStudy/src/memaccess.c on an index that `init_chasing_index` has
-- built.
use rw_sep.Prelude.{
  ℕ, zero, suc, ◌+◌, ◌-◌, ◌*◌, ◌^◌, ◌≤◌, ◌<◌, ◌≡◌, refl, ap, ◌∙◌, sym, inl, inr, Option, none, some,
  List, [], ◌∷◌, ◌++◌, length, get_elem?, concat_upto, arith,
}
use rw_sep.Prelude.Loops.{iterate}
use rw_sep.Machine.{Event, Cpu, add64}
use rw_sep.Machine.Faults.{NoFault, NoFault-append, NoFault-concat_upto, IsAligned, round-IsAligned}
use rw_sep.Chasing.{Outcome, init_chasing_index}
use rw_sep.Chasing.Cycle.{IsCycle, Links}
use rw_sep.Chasing.Init.{Ensures, init_chasing_index-Ensures}
use rw_sep.Memaccess.Rounds.{Completes, at_least_one, pieces}
use rw_sep.Memaccess.Chase.{chasing_storeclwb}
use rw_sep.Memaccess.Chase.Walk.{Holds, Clear, store_step, walk}
use rw_sep.Memaccess.Chase.Kernels.{chased, chasing_storeclwb-Traces}

-- Where the index leads from a position.
abbrev pub link : List ℕ → ℕ → ℕ
link links p = elim (get_elem? links p) [ none ↦ 0 | some q ↦ q ]

-- The steps along a trail, which is written last position first.
abbrev pub visits : (cindex a : ℕ) → List ℕ → List Event
visits cindex a [] = []
visits cindex a (p ∷ ps) = visits cindex a ps ++ store_step cindex a p

-- The last position of a trail of `n + 1` positions.
last_position :
    (links : List ℕ) (y : ℕ) (xs : List ℕ)
    → Links links (y ∷ xs)
    → iterate (link links) (length xs) 0 ≡ y
unfolding iterate
last_position links y [] h = sym h
last_position links y (x ∷ xs) h = ap (link links) (last_position links x xs h.1) ∙ rw (h.0, link)

walk-visits :
    (links : List ℕ) (cindex a : ℕ) (xs : List ℕ) (y : ℕ)
    → Links links (y ∷ xs)
    → walk cindex a (link links) (suc (length xs)) ≡ visits cindex a (y ∷ xs)
unfolding concat_upto iterate
walk-visits links cindex a [] y h = ap (store_step cindex a) (sym h)
walk-visits links cindex a (x ∷ xs) y h =
    ap (λ p. walk cindex a (link links) (suc (length xs)) ++ store_step cindex a p)
      (last_position links y (x ∷ xs) h)
    ∙ ap (λ es. es ++ store_step cindex a y) (walk-visits links cindex a xs x h.1)

-- A walk of as many steps as there are positions goes once along the whole cycle.
walk-IsCycle :
    (csize : ℕ) (links trail : List ℕ) (cindex a : ℕ)
    → 0 < csize
    → IsCycle csize links trail
    → walk cindex a (link links) (pieces (64 * csize)) ≡ visits cindex a trail
walk-IsCycle csize links [] cindex a pos cycle = absurd cycle.links
walk-IsCycle csize links (y ∷ xs) cindex a pos cycle =
    let whole : pieces (64 * csize) ≡ suc (length xs) = omega (arith, cycle.complete) in
    ap (walk cindex a (link links)) whole ∙ walk-visits links cindex a xs y cycle.links

concat_upto_congr :
    (f g : ℕ → List Event) (n : ℕ) → ((i : ℕ) → f i ≡ g i) → concat_upto f n ≡ concat_upto g n
unfolding concat_upto
concat_upto_congr f g zero same = refl
concat_upto_congr f g (suc n) same =
    ap (λ es. es ++ f n) (concat_upto_congr f g n same) ∙ ap (λ es. concat_upto g n ++ es) (same n)

-- One round along a trail.
abbrev pub visited : (start_addr skip cindex : ℕ) → List ℕ → ℕ → List Event
visited start_addr skip cindex trail i =
    visits cindex (add64 start_addr (skip * i)) trail ++ Event.mfence ∷ []

visits-NoFault : (cindex a : ℕ) (trail : List ℕ) → IsAligned a → NoFault (visits cindex a trail)
visits-NoFault cindex a [] al = tt
visits-NoFault cindex a (p ∷ ps) al =
    NoFault-append (visits cindex a ps) (store_step cindex a p) (visits-NoFault cindex a ps al)
      (inl (omega arith), (inr (omega arith), (tt, tt)))

visited-NoFault :
    (start_addr skip cindex count : ℕ) (trail : List ℕ)
    → IsAligned start_addr
    → IsAligned skip
    → NoFault (concat_upto (visited start_addr skip cindex trail) count)
visited-NoFault start_addr skip cindex count trail start skips =
    NoFault-concat_upto (visited start_addr skip cindex trail) count (λ i.
      let a = add64 start_addr (skip * i) in
      NoFault-append (visits cindex a trail) (Event.mfence ∷ [])
        (visits-NoFault cindex a trail (round-IsAligned start_addr skip i start skips)) (tt, tt))

module _ (rdrand : ℕ → Option ℕ) (tries pos n pos' : ℕ) (links : List ℕ)
    (built : init_chasing_index rdrand tries (suc n) pos ≡ Outcome.done links pos')
    (start_addr skip count cindex fuel : ℕ) (c : Cpu) (start : IsAligned start_addr)
    (skips : IsAligned skip) (closed : (p : ℕ) → p < suc n → link links p < suc n)
    (index_fits : cindex + 8 * suc n ≤ 2 ^ 64)
    (lines_fit : (i : ℕ)
      → i < at_least_one count
      → add64 start_addr (skip * i) + 64 * suc n ≤ 2 ^ 64)
    (clear : (i : ℕ) → i < at_least_one count → Clear (suc n) cindex (add64 start_addr (skip * i)))
    (held : Holds (suc n) cindex (link links) c) (size_fits : 64 * suc n ≤ 2 ^ 63 - 64)
    (count_fits : count < 2 ^ 63) (size_fuel : 64 * suc n < fuel) (count_fuel : count < fuel) where
  -- For an index with which init_chasing_index has returned 0, held in memory at `cindex`, which
  -- leads from each position to one below csize, which the lines of no round overlap and which does
  -- not wrap round, nor do the lines; with a start address and a stride that are multiples of 64, a
  -- size of 64 bytes per position that is at most 2 ^ 63 - 64, a count below 2 ^ 63, and fuel above
  -- both: chasing_storeclwb ends without a fault, and there is a cycle through all positions, each
  -- once, such that in each of its rounds the kernel steps along the whole cycle, reading the index
  -- at each position, and storing and writing back its line, before the fence.
  pub chasing_storeclwb-IsCycle :
      (trail : List ℕ) × IsCycle (suc n) links trail
      × Completes
          (chasing_storeclwb fuel start_addr (64 * suc n) skip count cindex c)
          c
          (concat_upto (visited start_addr skip cindex trail) (at_least_one count))
  chasing_storeclwb-IsCycle =
      let found : Ensures (suc n) (Outcome.done links pos') =
        rw built at (init_chasing_index-Ensures rdrand n tries pos) in
      let (trail, cycle) = found in
      let (c', ends, traced) =
        chasing_storeclwb-Traces start_addr (64 * suc n) skip count cindex (suc n) (link links) fuel
          c (omega arith) closed index_fits lines_fit clear held size_fits count_fits size_fuel
          count_fuel in
      (
        trail,
        cycle,
        (
          (
            c',
            ends,
            traced
                ∙ ap (λ es. c.trace ++ es)
                    (concat_upto_congr (chased start_addr (64 * suc n) skip cindex (link links))
                      (visited start_addr skip cindex trail) (at_least_one count)
                      (λ i.
                        ap (λ es. es ++ Event.mfence ∷ [])
                          (walk-IsCycle (suc n) links trail cindex (add64 start_addr (skip * i))
                            (omega arith) cycle))),
          ),
          visited-NoFault start_addr skip cindex (at_least_one count) trail start skips,
        ),
      )
