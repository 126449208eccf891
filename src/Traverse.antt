-- ===== src/Traverse.antt =====
-- The worker of pm_study/microbenchmark/lat.cpp: units of 256 bytes, linked in a ring in the order
-- in which they are to be visited, and then chased or computed. `next` holds the index of the unit
-- that each unit's pointer leads to, from `work_ptr` on. The library's `std::random_shuffle` and
-- `random` are parameters. The barrier, the clock and the strings of the report are left out.
pub mod Ring
pub mod Visits
pub mod Strict
pub mod Runs
pub mod Sweep
pub mod Jobs
pub mod Accesses
use rw_sep.Prelude.{
  ℕ, zero, suc, ◌+◌, ◌-◌, ◌*◌, ◌/◌, ◌%◌, Bool, true, false, Option, none, some, List, [], ◌∷◌, ◌++◌,
  leb, ◌==◌, set, get_elem?, if◌then◌else◌,
}
use rw_sep.Machine.{Event, add64}

-- sizeof(access_unit_t): a pointer and NPAD words.
abbrev pub npad : ℕ
npad = 31

abbrev pub unit_size : ℕ
unit_size = 8 + npad * 8

pub data TraverseType : Type 0 where
  chasing_ptr calc_offset : TraverseType

-- 0, 1, …, n - 1, for fewer than 2 ^ 31 units, since the loop counts them in an `int i`.
unfoldable pub upto : ℕ → List ℕ
upto zero = []
upto (suc n) = upto n ++ n ∷ []

-- `work_ptr[traverse_order.at(i - 1)].next = &work_ptr[traverse_order.at(i)]` for each i from 1 on,
-- and then the last unit's pointer to the first.
unfoldable pub link_chain : (first prev : ℕ) → List ℕ → List ℕ → List ℕ
link_chain first prev [] next = set next prev first
link_chain first prev (x ∷ xs) next = link_chain first x xs (set next prev x)

-- `none` is the exception that `at(unit_num - 1)` throws where there is no unit.
unfoldable pub link_units : List ℕ → List ℕ → Option (List ℕ)
unfolding link_chain
link_units [] next = none
link_units (first ∷ rest) next = some (link_chain first first rest next)

-- `while (p != starting_point) { wr_method(…); p = p->next; }`: the units that are visited.
pub data Walk : Type 0 where
  walked : List ℕ → Walk
  -- An index outside the units.
  astray : Walk
  -- Still going on.
  endless : Walk

unfoldable pub then_visit : ℕ → Walk → Walk
then_visit p (Walk.walked ps) = Walk.walked (p ∷ ps)
then_visit p Walk.astray = Walk.astray
then_visit p Walk.endless = Walk.endless

unfoldable pub chase : (fuel p starting_point : ℕ) → List ℕ → Walk
unfolding then_visit
chase zero p starting_point next = Walk.endless
chase (suc fuel) p starting_point next = elim (p == starting_point) [
  | true ↦ Walk.walked []
  | false ↦ elim (get_elem? next p) [
    | none ↦ Walk.astray
    | some q ↦ then_visit p (chase fuel q starting_point next)
  ]
]

-- One round of `chase_ptr_lat`, for the number that `random` gives.
unfoldable pub chase_ptr_lat : (fuel unit_num random : ℕ) → List ℕ → Walk
unfolding chase
chase_ptr_lat fuel unit_num random next =
    let starting_point = random % unit_num in
    elim (get_elem? next starting_point) [
      | none ↦ Walk.astray
      | some p ↦ chase fuel p starting_point next
    ]

-- `exit_failure` is the exit for a working set that is too large, `out_of_range` the exception.
pub data Report : Type 0 where
  visited : Walk → Report
  exit_failure out_of_range : Report

-- One iteration of the worker. `next` is what the memory holds before.
unfoldable pub worker :
    (List ℕ → List ℕ)
    → (fuel max_size wss random : ℕ) → (seq : Bool) → TraverseType
    → (next : List ℕ) → Report
unfolding upto link_units chase_ptr_lat
worker shuffle fuel max_size wss random seq trav_tp next = elim (leb max_size wss) [
  | true ↦ Report.exit_failure
  | false ↦
      let unit_num = wss / unit_size in
      let traverse_order = if seq then upto unit_num else shuffle (upto unit_num) in
      elim (link_units traverse_order next) [
        | none ↦ Report.out_of_range
        | some linked ↦ elim trav_tp [
          | chasing_ptr ↦ Report.visited (chase_ptr_lat fuel unit_num random linked)
          | calc_offset ↦ Report.visited (Walk.walked traverse_order)
        ]
      ]
]

-- The four methods that write, at an address; `rd` does nothing. Adding 10 to an int reads it
-- first.
unfoldable pub wr_clwb : ℕ → List Event
wr_clwb addr = Event.load addr 4 ∷ Event.store addr 4 ∷ Event.clwb addr ∷ []

unfoldable pub wr_clwb_sfence : ℕ → List Event
wr_clwb_sfence addr = Event.load addr 4 ∷ Event.store addr 4 ∷ Event.clwb addr ∷ Event.sfence ∷ []

unfoldable pub wr_nt : ℕ → List Event
wr_nt addr = Event.nt_store addr 64 ∷ []

unfoldable pub wr_nt_sfence : ℕ → List Event
wr_nt_sfence addr = Event.nt_store addr 64 ∷ Event.sfence ∷ []

-- `&p->pad[15]` of the unit with index `p`.
unfoldable pub pad_address : (work_ptr p : ℕ) → ℕ
pad_address work_ptr p = add64 work_ptr (unit_size * p + 8 + 15 * 8)

-- What the chase does to memory.
unfoldable pub method_events : (ℕ → List Event) → (work_ptr : ℕ) → List ℕ → List Event
unfolding pad_address
method_events wr_method work_ptr [] = []
method_events wr_method work_ptr (p ∷ ps) =
    wr_method (pad_address work_ptr p) ++ method_events wr_method work_ptr ps
