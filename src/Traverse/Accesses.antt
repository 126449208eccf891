-- ===== src/Traverse/Accesses.antt =====
-- What the iterations of a worker of pm_study/microbenchmark/lat.cpp access, by chasing pointers
-- and by computed offsets.
use mathlib.Core.Path.{subst}
use rw_sep.Prelude.{
  ℕ, zero, suc, ◌+◌, ◌*◌, ◌%◌, ◌≤◌, ◌<◌, ◌≡◌, refl, sym, ap, ◌∙◌, Bool, some, List, [], ◌∷◌, length,
  length-append, ltb, arith,
}
use rw_sep.Traverse.{Walk, walked, astray, endless, link_units, chase_ptr_lat}
use rw_sep.Traverse.Ring.{Leads-first_of}
use rw_sep.Traverse.Visits.{
  as_number, visits_to, visits_to-append, Shuffles, AllButOne, prepared, visits_to-prepared,
  length-prepared, chase_ptr_lat-prepared,
}
use rw_sep.Traverse.Runs.{calc_lat, chase_rounds}

-- A round that visits each unit but the one that it starts at.
abbrev pub Around : (unit_num start : ℕ) → Walk → Type 0
Around unit_num start w =
    (ps : List ℕ) × (w ≡ Walk.walked ps) × AllButOne unit_num start ps × (length ps + 1 ≡ unit_num)

abbrev pub AllAround : (unit_num : ℕ) → (random : ℕ → ℕ) → (i : ℕ) → List Walk → Type 0
AllAround unit_num random i [] = Unit
AllAround unit_num random i (w ∷ ws) =
    Around unit_num (random i % unit_num) w × AllAround unit_num random (i + 1) ws

-- How often a method was called.
abbrev pub calls : Walk → ℕ
calls (walked ps) = length ps
calls astray = 0
calls endless = 0

abbrev pub total_calls : List Walk → ℕ
total_calls [] = 0
total_calls (w ∷ ws) = calls w + total_calls ws

some_inj : (x y : List ℕ) → some x ≡ some y → x ≡ y
some_inj x y e = cc

total_calls-AllAround :
    (unit_num : ℕ) (random : ℕ → ℕ) (i : ℕ) (ws : List Walk)
    → AllAround unit_num random i ws
    → total_calls ws + length ws ≡ length ws * unit_num
total_calls-AllAround unit_num random i [] h = omega arith
total_calls-AllAround unit_num random i (w ∷ ws) (around, h) =
    let rest = total_calls-AllAround unit_num random (i + 1) ws h in
    let one : calls w + 1 ≡ unit_num = rw around.1 around.3 in
    let more : suc (length ws) * unit_num ≡ length ws * unit_num + unit_num = grind arith in
    omega (arith, rest, one, more)

length-chase_rounds :
    (fuel unit_num : ℕ) (random : ℕ → ℕ) (i left : ℕ) (next : List ℕ)
    → length (chase_rounds fuel unit_num random i left next) ≡ left
unfolding chase_rounds
length-chase_rounds fuel unit_num random i zero next = refl
length-chase_rounds fuel unit_num random i (suc left) next =
    ap suc (length-chase_rounds fuel unit_num random (i + 1) left next)

calc_lat_counts :
    (iter : ℕ) (order : List ℕ)
    → (length (calc_lat iter order) ≡ iter * length order)
      × ((a : ℕ) → visits_to a (calc_lat iter order) ≡ iter * visits_to a order)
unfolding calc_lat
calc_lat_counts zero order = (omega arith, λ a. omega arith)
calc_lat_counts (suc iter) order =
    let (size, counts) = calc_lat_counts iter order in
    let more : suc iter * length order ≡ iter * length order + length order = grind arith in
    (
      omega (arith, length-append order (calc_lat iter order), size, more),
      λ a.
          let one : suc iter * visits_to a order ≡ iter * visits_to a order + visits_to a order =
            grind arith in
          omega (arith, visits_to-append a order (calc_lat iter order), counts a, one),
    )

module _ (shuffle : List ℕ → List ℕ) (shuffles : Shuffles shuffle) where
  chase_ptr_lat-Around :
      (fuel n random : ℕ) (seq : Bool) (next linked : List ℕ)
      → 0 < n
      → n ≤ length next
      → n ≤ fuel
      → link_units (prepared shuffle seq n) next ≡ some linked
      → Around n (random % n) (chase_ptr_lat fuel n random linked)
  unfolding chase_ptr_lat
  chase_ptr_lat-Around fuel n random seq next linked some_unit room enough links =
      let (ring, ps, rings, leads, walks, visits, size) =
        chase_ptr_lat-prepared shuffle shuffles fuel n random seq next some_unit room enough in
      let same : ring ≡ linked = some_inj ring linked (sym rings ∙ links) in
      subst (λ (l : List ℕ). Around n (random % n) (chase_ptr_lat fuel n random l)) same
        (
          ps,
          rw (chase_ptr_lat, Leads-first_of ring (random % n) ps (random % n) leads) walks,
          visits,
          size,
        )

  chase_rounds-AllAround :
      (fuel n : ℕ) (random : ℕ → ℕ) (seq : Bool) (next linked : List ℕ)
      → 0 < n
      → n ≤ length next
      → n ≤ fuel
      → link_units (prepared shuffle seq n) next ≡ some linked
      → (i left : ℕ) → AllAround n random i (chase_rounds fuel n random i left linked)
  unfolding chase_rounds
  chase_rounds-AllAround fuel n random seq next linked some_unit room enough links i zero = tt
  chase_rounds-AllAround fuel n random seq next linked some_unit room enough links i (suc left) = (
    chase_ptr_lat-Around fuel n (random i) seq next linked some_unit room enough links,
    chase_rounds-AllAround fuel n random seq next linked some_unit room enough links (i + 1) left,
  )

  -- With a shuffle that keeps what the list holds, and memory and fuel for the units, of which
  -- there is one or more: the units can be linked. Then each of `iter` iterations of the chase ends
  -- and visits each unit but the one it starts at once, so a method is called `iter` times less
  -- than `iter` times the number of units; computed offsets visit each unit `iter` times.
  pub accesses_counted :
      (fuel n iter : ℕ) (random : ℕ → ℕ) (seq : Bool) (next : List ℕ)
      → 0 < n
      → n ≤ length next
      → n ≤ fuel
      → (linked : List ℕ) × (link_units (prepared shuffle seq n) next ≡ some linked)
        × AllAround n random 0 (chase_rounds fuel n random 0 iter linked)
        × (total_calls (chase_rounds fuel n random 0 iter linked) + iter ≡ iter * n)
        × ((a : ℕ)
            → visits_to a (calc_lat iter (prepared shuffle seq n)) ≡ iter * as_number (ltb a n))
        × (length (calc_lat iter (prepared shuffle seq n)) ≡ iter * n)
  accesses_counted fuel n iter random seq next some_unit room enough =
      let ring = chase_ptr_lat-prepared shuffle shuffles fuel n 0 seq next some_unit room enough in
      let around =
        chase_rounds-AllAround fuel n random seq next ring.0 some_unit room enough ring.2 0 iter in
      let (size, counts) = calc_lat_counts iter (prepared shuffle seq n) in
      let rounds = length-chase_rounds fuel n random 0 iter ring.0 in
      (
        ring.0,
        ring.2,
        around,
        rw rounds at
            (total_calls-AllAround n random 0 (chase_rounds fuel n random 0 iter ring.0) around),
        λ a. counts a ∙ ap (iter *◌) (visits_to-prepared shuffle shuffles seq n a),
        size ∙ ap (iter *◌) (length-prepared shuffle shuffles seq n),
      )
