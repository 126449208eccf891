-- ===== src/Fastalloc/Globals/Copy.antt =====
-- The copy of the allocator in pm_study/src/fastalloc.cpp, which makes both objects at once.
use mathlib.Core.Option
use rw_sep.Prelude.{
  ℕ, ◌≤◌, ◌≡◌, refl, ap, ◌∙◌, true, false, inl, inr, ◌⊎◌, none, some, List, [], ◌∷◌, ◌++◌, length,
  length-append, All, arith,
}
use rw_sep.Prelude.Loops.{◌>>=◌}
use rw_sep.Fastalloc.{max_slots, init, open_arena, constructed}
use rw_sep.Fastalloc.Globals.{unset, create, init_fast_allocator, init_both}
use rw_sep.Fastalloc.Globals.Lives.{
  Life, Call, start, request, concurrency_request, free, lives, follow_all, step, run,
}
use rw_sep.Fastalloc.Globals.Protocol.{run_follows}

-- A request to one of the two allocators.
abbrev pub IsRequest : Call → Type 0
IsRequest (start multi_thread) = ⊥
IsRequest (request size on_nvm) = Unit
IsRequest (concurrency_request size on_nvm) = Unit
IsRequest free = ⊥

follow_all-requests :
    (cs ds : List Call)
    → All IsRequest cs
    → follow_all (cs ++ ds) (Life.usable, Life.usable) ≡ follow_all ds (Life.usable, Life.usable)
follow_all-requests [] ds h = refl
follow_all-requests (start m ∷ cs) ds h = absurd h.0
follow_all-requests (request size on_nvm ∷ cs) ds h = follow_all-requests cs ds h.1
follow_all-requests (concurrency_request size on_nvm ∷ cs) ds h = follow_all-requests cs ds h.1
follow_all-requests (free ∷ cs) ds h = absurd h.0

module _ (os : ℕ → ℕ) (dram_slots nvm_slots : ℕ → List ℕ) where
  -- The copy's `init_fast_allocator` is that of fastallocate/ called with true and with false.
  init_both-eq_run :
      (cs : List Call) (regions : ℕ)
      → (init_both os dram_slots nvm_slots (unset regions) >>= run os dram_slots nvm_slots cs)
        ≡ run os dram_slots nvm_slots (Call.start true ∷ Call.start false ∷ cs) (unset regions)
  unfolding init_both run step init_fast_allocator create init open_arena constructed
  init_both-eq_run cs regions = refl

  -- In pm_study, with arrays of 100 entries: after `init_fast_allocator` from null pointers, up to
  -- 96 requests to the two allocators, mixed in any way, and then `fast_free` are all defined, and
  -- leave both pointers dangling, so a second `fast_free`, or a request after the first, is not.
  pub init_both_serves :
      (requests : List Call) (regions : ℕ) (late : Call)
      → ((r : ℕ) → length (dram_slots r) ≡ max_slots)
      → All IsRequest requests
      → length requests ≤ 96
      → IsRequest late ⊎ (late ≡ Call.free)
      → (Option.map lives (
            init_both os dram_slots nvm_slots (unset regions)
            >>= run os dram_slots nvm_slots (requests ++ Call.free ∷ []))
          ≡ some (Life.gone, Life.gone))
        × (Option.map lives (
              init_both os dram_slots nvm_slots (unset regions)
              >>= run os dram_slots nvm_slots (requests ++ Call.free ∷ late ∷ []))
            ≡ none)
  init_both_serves requests regions late arrays all short ends = (
    ap (Option.map lives) (init_both-eq_run (requests ++ Call.free ∷ []) regions)
        ∙ run_follows os dram_slots nvm_slots arrays
            (Call.start true ∷ Call.start false ∷ requests ++ Call.free ∷ []) regions
            (omega (arith, length-append requests (Call.free ∷ [])))
        ∙ follow_all-requests requests (Call.free ∷ []) all,
    ap (Option.map lives) (init_both-eq_run (requests ++ Call.free ∷ late ∷ []) regions)
        ∙ run_follows os dram_slots nvm_slots arrays
            (Call.start true ∷ Call.start false ∷ requests ++ Call.free ∷ late ∷ []) regions
            (omega (arith, length-append requests (Call.free ∷ late ∷ [])))
        ∙ follow_all-requests requests (Call.free ∷ late ∷ []) all
        ∙ too_late late ends,
  )
    where
      too_late :
          (c : Call)
          → IsRequest c ⊎ (c ≡ Call.free)
          → follow_all (c ∷ []) (Life.gone, Life.gone) ≡ none
      too_late (start m) (inl h) = absurd h
      too_late (start m) (inr h) = cc
      too_late (request size on_nvm) h = refl
      too_late (concurrency_request size on_nvm) h = refl
      too_late free h = refl
