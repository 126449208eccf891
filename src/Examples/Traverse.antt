-- ===== src/Examples/Traverse.antt =====
-- The theorems on pm_study/microbenchmark/lat.cpp at concrete inputs.
use rw_sep.Prelude.{
  ℕ, ◌≡◌, ◌^◌, List, [], ◌∷◌, ◌++◌, false, refl, length, length-append, replicate, arith,
}
use rw_sep.Machine.Persist.{effects, NoDirty, Durable}
use rw_sep.Traverse.{
  TraverseType, Walk, Report, worker, method_events, wr_clwb, wr_clwb_sfence, wr_nt, wr_nt_sfence,
}
use rw_sep.Traverse.Visits.{visits_to, visits_to-append, Shuffles, AllButOne, worker_visits}
use rw_sep.Traverse.Strict.{method_events-Durable}
use rw_sep.Examples.{all_clean}

-- A shuffle: the first becomes the last.
abbrev pub rotate : List ℕ → List ℕ
rotate [] = []
rotate (x ∷ xs) = xs ++ x ∷ []

visits_to-rotate : (l : List ℕ) (a : ℕ) → visits_to a (rotate l) ≡ visits_to a l
visits_to-rotate [] a = refl
visits_to-rotate (x ∷ xs) a = omega (arith, visits_to-append a xs (x ∷ []))

length-rotate : (l : List ℕ) → length (rotate l) ≡ length l
length-rotate [] = refl
length-rotate (x ∷ xs) = omega (arith, length-append xs (x ∷ []))

pub rotate-Shuffles : Shuffles rotate
rotate-Shuffles = record { same_count = visits_to-rotate; same_length = length-rotate }

worker_visits_example :
    (ps : List ℕ) × (worker rotate 16
        (2 ^ 30)
        4096
        21
        false
        TraverseType.chasing_ptr
        (replicate 16 0)
      ≡ Report.visited (Walk.walked ps))
    × AllButOne 16 5 ps
worker_visits_example =
    worker_visits rotate rotate-Shuffles 16 (2 ^ 30) 4096 21 false (replicate 16 0) (omega arith)
      (omega arith) (omega arith) (omega arith)

method_events-Durable_example :
    Durable (effects (method_events wr_clwb_sfence 4096 (3 ∷ 1 ∷ 2 ∷ [])) all_clean)
    × Durable (effects (method_events wr_nt_sfence 4096 (3 ∷ 1 ∷ 2 ∷ [])) all_clean)
    × NoDirty (effects (method_events wr_clwb 4096 (3 ∷ 1 ∷ 2 ∷ [])) all_clean)
    × NoDirty (effects (method_events wr_nt 4096 (3 ∷ 1 ∷ 2 ∷ [])) all_clean)
method_events-Durable_example =
    method_events-Durable 4096 (3 ∷ 1 ∷ 2 ∷ []) all_clean refl (λ x. refl)
