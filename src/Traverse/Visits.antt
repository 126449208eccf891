-- ===== src/Traverse/Visits.antt =====
-- What the worker of pm_study/microbenchmark/lat.cpp visits, for any order that the shuffle gives.
use rw_sep.Prelude.{
  ℕ, zero, suc, ◌+◌, ◌/◌, ◌%◌, ◌<◌, ◌≤◌, ◌≡◌, refl, ap, ◌∙◌, sym, Bool, true, false, not, ◌&&◌,
  some, List, [], ◌∷◌, ◌++◌, All, length, length-append, ltb, leb, append-nil, ◌==◌, if◌then◌else◌,
  inl, inr, Bool-cases, arith,
}
use rw_sep.Chasing.Cycle.{NotIn, Distinct}
use rw_sep.Traverse.{
  unit_size, TraverseType, upto, Walk, chase, chase_ptr_lat, link_chain, link_units, Report, worker,
}
use rw_sep.Traverse.Ring.{
  Leads, Leads-append, Leads-split, Leads-first_of, link_chain-Leads, chase-Leads, first_of,
}

abbrev pub as_number : Bool → ℕ
as_number true = 1
as_number false = 0

-- How often `p` stands in an order.
abbrev pub visits_to : ℕ → List ℕ → ℕ
visits_to p [] = 0
visits_to p (q ∷ order) = visits_to p order + as_number (p == q)

pub visits_to-append :
    (p : ℕ) (before after : List ℕ)
    → visits_to p (before ++ after) ≡ visits_to p before + visits_to p after
visits_to-append p [] after = ground arith
visits_to-append p (q ∷ before) after =
    let rest = visits_to-append p before after in omega (arith, rest)

-- What the library says of `std::random_shuffle`.
pub record Shuffles (shuffle : List ℕ → List ℕ) : Type 0 where
  pub same_count : (l : List ℕ) (a : ℕ) → visits_to a (shuffle l) ≡ visits_to a l
  pub same_length : (l : List ℕ) → length (shuffle l) ≡ length l

visits_to-NotIn : (a : ℕ) (l : List ℕ) → visits_to a l ≡ 0 → NotIn a l
visits_to-NotIn a [] h = tt
visits_to-NotIn a (x ∷ xs) h = (ground arith, visits_to-NotIn a xs (omega arith))

visits_to-Distinct : (l : List ℕ) → ((a : ℕ) → visits_to a l ≤ 1) → Distinct l
visits_to-Distinct [] h = tt
visits_to-Distinct (x ∷ xs) h =
    let same : (x == x) ≡ true = ground arith in
    let once : visits_to x xs + as_number (x == x) ≤ 1 = h x in
    (
      visits_to-NotIn x xs (let one : visits_to x xs + 1 ≤ 1 = rw same at once in omega arith),
      visits_to-Distinct xs
          (λ a. let k : visits_to a xs + as_number (a == x) ≤ 1 = h a in omega arith),
    )

-- A member splits its list.
visits_to-split :
    (a : ℕ) (l : List ℕ) → 0 < visits_to a l → (xs : List ℕ) × (ys : List ℕ) × (l ≡ xs ++ a ∷ ys)
visits_to-split a [] h = absurd (omega arith)
visits_to-split a (x ∷ l) h = elim (Bool-cases (a == x)) [
  | inl e ↦ let same : a ≡ x = ground arith in ([], l, rw same refl)
  | inr e ↦
      let (xs, ys, split) = visits_to-split a l (ground arith) in (x ∷ xs, ys, ap (x ∷◌) split)
]

visits_to-upto : (a n : ℕ) → visits_to a (upto n) ≡ as_number (ltb a n)
unfolding upto
visits_to-upto a zero = ground arith
visits_to-upto a (suc n) = rw (visits_to-append, visits_to-upto a n) (ground arith)

length-upto : (n : ℕ) → length (upto n) ≡ n
unfolding upto
length-upto zero = refl
length-upto (suc n) = omega (arith, length-append (upto n) (n ∷ []), length-upto n)

All-visits_to : (P : ℕ → Type 0) (l : List ℕ) → ((a : ℕ) → 0 < visits_to a l → P a) → All P l
All-visits_to P [] h = tt
All-visits_to P (x ∷ xs) h =
    (h x (ground arith), All-visits_to P xs (λ a k. h a (omega (arith, k))))

-- The ring that is linked in the order `xs ++ start ∷ ys` leads from `start` through the rest of
-- it.
link_units-Leads :
    (xs : List ℕ) (start : ℕ) (ys next : List ℕ)
    → Distinct (xs ++ start ∷ ys)
    → All (λ p. p < length next) (xs ++ start ∷ ys)
    → (linked : List ℕ) × (link_units (xs ++ start ∷ ys) next ≡ some linked)
      × Leads linked start (ys ++ xs) start
unfolding link_units
link_units-Leads [] start ys next distinct inside = (
  link_chain start start ys next,
  refl,
  rw append-nil (link_chain-Leads start start ys next distinct inside),
)
link_units-Leads (x ∷ xs) start ys next distinct inside =
    let linked = link_chain x x (xs ++ start ∷ ys) next in
    let leads = link_chain-Leads x x (xs ++ start ∷ ys) next distinct inside in
    let (there, back) = Leads-split linked x xs start ys x leads in
    (linked, refl, Leads-append linked start ys x xs start back there)

-- What one round of the chase visits: each unit but the one that it starts at, once.
abbrev pub AllButOne : (unit_num start : ℕ) → List ℕ → Type 0
AllButOne unit_num start ps =
    (a : ℕ) → visits_to a ps ≡ as_number (ltb a unit_num && not (a == start))

-- `order` has each number below `n` once.
abbrev pub EachOnce : (n : ℕ) → List ℕ → Type 0
EachOnce n order = (a : ℕ) → visits_to a order ≡ as_number (ltb a n)

-- One round of the chase in a ring that was linked in the order `order`.
abbrev pub Round : (order next : List ℕ) (n start fuel : ℕ) → Type 0
Round order next n start fuel =
    (linked : List ℕ) × (ps : List ℕ) × (link_units order next ≡ some linked)
    × Leads linked start ps start
    × (chase fuel (first_of ps start) start linked ≡ Walk.walked ps)
    × AllButOne n start ps
    × (length ps + 1 ≡ n)

around-AllButOne :
    (xs ys : List ℕ) (n start : ℕ) → EachOnce n (xs ++ start ∷ ys) → AllButOne n start (ys ++ xs)
around-AllButOne xs ys n start counted a =
    let all : visits_to a xs + (visits_to a ys + as_number (a == start)) ≡ as_number (ltb a n) =
      sym (visits_to-append a xs (start ∷ ys)) ∙ counted a in
    rw visits_to-append (ground arith)

split-Round :
    (xs ys next : List ℕ) (n start fuel : ℕ)
    → EachOnce n (xs ++ start ∷ ys)
    → length (xs ++ start ∷ ys) ≡ n
    → n ≤ length next
    → n ≤ fuel
    → Round (xs ++ start ∷ ys) next n start fuel
split-Round xs ys next n start fuel counted size room enough =
    let distinct = visits_to-Distinct (xs ++ start ∷ ys) (λ a. rw (counted a) (ground arith)) in
    let inside =
      All-visits_to (λ p. p < length next) (xs ++ start ∷ ys) (λ a k. ground (arith, counted a)) in
    let (linked, links, leads) = link_units-Leads xs start ys next distinct inside in
    let rest = around-AllButOne xs ys n start counted in
    (
      linked,
      ys ++ xs,
      links,
      leads,
      chase-Leads linked start (ys ++ xs) start fuel leads
          (visits_to-NotIn start (ys ++ xs) (rw (rest start) (ground arith)))
          (omega (arith, size, length-append xs (start ∷ ys), length-append ys xs)),
      rest,
      omega (arith, size, length-append xs (start ∷ ys), length-append ys xs),
    )

order-Round :
    (order next : List ℕ) (n start fuel : ℕ)
    → start < n
    → EachOnce n order
    → length order ≡ n
    → n ≤ length next
    → n ≤ fuel
    → Round order next n start fuel
order-Round order next n start fuel inside counted size room enough =
    let (xs, ys, split) = visits_to-split start order (rw (counted start) (ground arith)) in
    rw split
      (split-Round xs ys next n start fuel (rw split at counted) (rw split at size) room enough)

-- The order that the worker prepares: each unit once.
abbrev pub prepared : (List ℕ → List ℕ) → Bool → ℕ → List ℕ
prepared shuffle seq unit_num = if seq then upto unit_num else shuffle (upto unit_num)

module _ (shuffle : List ℕ → List ℕ) (shuffles : Shuffles shuffle) where
  pub visits_to-prepared :
      (seq : Bool) (n a : ℕ) → visits_to a (prepared shuffle seq n) ≡ as_number (ltb a n)
  visits_to-prepared true n a = visits_to-upto a n
  visits_to-prepared false n a = shuffles.same_count (upto n) a ∙ visits_to-upto a n

  pub length-prepared : (seq : Bool) (n : ℕ) → length (prepared shuffle seq n) ≡ n
  length-prepared true n = length-upto n
  length-prepared false n = shuffles.same_length (upto n) ∙ length-upto n

  pub chase_ptr_lat-prepared :
      (fuel n random : ℕ) (seq : Bool) (next : List ℕ)
      → 0 < n
      → n ≤ length next
      → n ≤ fuel
      → Round (prepared shuffle seq n) next n (random % n) fuel
  chase_ptr_lat-prepared fuel n random seq next some_unit room enough =
      order-Round (prepared shuffle seq n) next n (random % n) fuel (omega arith)
        (visits_to-prepared seq n) (length-prepared seq n) room enough

  -- With a shuffle that keeps what the list holds: when the working set is below the bound and
  -- holds a unit, the memory has room for its units and the fuel is at least their number, a worker
  -- that chases pointers ends, in either order, having visited each unit but the one it started at
  -- once.
  pub worker_visits :
      (fuel max_size wss random : ℕ) (seq : Bool) (next : List ℕ)
      → wss < max_size
      → unit_size ≤ wss
      → wss / unit_size ≤ length next
      → wss / unit_size ≤ fuel
      → (ps : List ℕ) × (worker shuffle fuel max_size wss random seq TraverseType.chasing_ptr next
          ≡ Report.visited (Walk.walked ps))
        × AllButOne (wss / unit_size) (random % (wss / unit_size)) ps
  unfolding worker chase_ptr_lat
  worker_visits fuel max_size wss random seq next fits some_unit room enough =
      let n = wss / unit_size in
      let (linked, ps, links, leads, walks, visits, _) =
        chase_ptr_lat-prepared fuel n random seq next (omega arith) room enough in
      let small : leb max_size wss ≡ false = ground arith in
      (
        ps,
        rw
            (
              worker,
              small,
              links,
              chase_ptr_lat,
              Leads-first_of linked (random % n) ps (random % n) leads,
            )
            (ap Report.visited walks),
        visits,
      )
