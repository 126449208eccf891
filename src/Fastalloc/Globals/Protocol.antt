-- ===== src/Fastalloc/Globals/Protocol.antt =====
-- The calls on the global pointers of fastallocate/fastalloc.cpp follow their protocol.
use mathlib.Core.Option
use rw_sep.Prelude.{
  ℕ, suc, ◌<◌, ◌≤◌, ◌≡◌, refl, ap, ◌∙◌, Bool, true, false, inl, inr, ◌⊎◌, Option, none, some, List,
  [], ◌∷◌, length, arith,
}
use rw_sep.Prelude.Loops.{◌>>=◌}
use rw_sep.Fastalloc.{max_slots, alloc_size, concurrency_alloc_size}
use rw_sep.Fastalloc.Free.{free_dram_only}
use rw_sep.Fastalloc.Globals.{
  Pointer, null, live, dangling, Globals, unset, alloc_through, free_through, fast_alloc,
  concurrency_fast_alloc, fast_free, init_fast_allocator,
}
use rw_sep.Fastalloc.Globals.Lives.{
  Life, Call, start, request, concurrency_request, free, lives, life, ended, follow, follow_all,
  step, run,
}
use rw_sep.Fastalloc.Globals.Room.{
  HasRoom, PointerRoom, PointerRoom-less, alloc-HasRoom, create-HasRoom,
}

-- A call and a step of the protocol agree: neither is defined, or both are, and lead to the same.
abbrev Agree : ℕ → Option Globals → Option (Life × Life) → Type 0
Agree k none none = Unit
Agree k (some g) (some l) =
    PointerRoom k g.myallocator × PointerRoom k g.concurrency_myallocator × (lives g ≡ l)
Agree k _ _ = ⊥

module _ (os : ℕ → ℕ) (dram_slots nvm_slots : ℕ → List ℕ) where
  request-Agree :
      (k size : ℕ) (on_nvm : Bool) (p c : Pointer) (regions : ℕ)
      → PointerRoom (suc k) p
      → PointerRoom (suc k) c
      → let g : Globals = record {
        myallocator = p;
        concurrency_myallocator = c;
        regions = regions;
      } in
        Agree k
          (step os dram_slots nvm_slots (Call.request size on_nvm) g)
          (follow (Call.request size on_nvm) (lives g))
  unfolding step fast_alloc alloc_through
  request-Agree k size on_nvm null c regions hp hc = tt
  request-Agree k size on_nvm (live a) c regions hp hc =
      let h : HasRoom (suc k) (record a { regions = regions }) = record {
        dram_slots = hp.dram_slots;
        dram_room = hp.dram_room;
        nvm_room = hp.nvm_room;
      } in
      let (x, a', e, h') = alloc-HasRoom os size on_nvm k (record a { regions = regions }) h in
      rw e (h', PointerRoom-less k c hc, refl)
  request-Agree k size on_nvm dangling c regions hp hc = tt

  concurrency_request-Agree :
      (k size : ℕ) (on_nvm : Bool) (p c : Pointer) (regions : ℕ)
      → PointerRoom (suc k) p
      → PointerRoom (suc k) c
      → let g : Globals = record {
        myallocator = p;
        concurrency_myallocator = c;
        regions = regions;
      } in
        Agree k
          (step os dram_slots nvm_slots (Call.concurrency_request size on_nvm) g)
          (follow (Call.concurrency_request size on_nvm) (lives g))
  unfolding step concurrency_fast_alloc alloc_through
  concurrency_request-Agree k size on_nvm p null regions hp hc = tt
  concurrency_request-Agree k size on_nvm p (live a) regions hp hc =
      let h : HasRoom (suc k) (record a { regions = regions }) = record {
        dram_slots = hc.dram_slots;
        dram_room = hc.dram_room;
        nvm_room = hc.nvm_room;
      } in
      let (x, a', e, h') = alloc-HasRoom os size on_nvm k (record a { regions = regions }) h in
      rw e (PointerRoom-less k p hp, h', refl)
  concurrency_request-Agree k size on_nvm p dangling regions hp hc = tt

  -- `free` leaves no allocator.
  free_through-Ends :
      (k : ℕ) (p : Pointer)
      → PointerRoom (suc k) p
      → (free_through p ≡ none) × (ended (life p) ≡ none)
        ⊎ ((ps : List ℕ) × (p' : Pointer) × (free_through p ≡ some (ps, p'))
            × (ended (life p) ≡ some (life p'))
            × PointerRoom k p')
  unfolding free_through
  free_through-Ends k null h = inr ([], null, refl, refl, tt)
  free_through-Ends k (live a) h =
      let f = free_dram_only a (omega (arith, h.dram_slots, h.dram_room)) in
      inr (f.0, dangling, rw f.2 refl, refl, tt)
  free_through-Ends k dangling h = inl (refl, refl)

  free-Agree :
      (k : ℕ) (g : Globals)
      → PointerRoom (suc k) g.myallocator
      → PointerRoom (suc k) g.concurrency_myallocator
      → Agree k (step os dram_slots nvm_slots Call.free g) (follow Call.free (lives g))
  unfolding step fast_free
  free-Agree k g hp hc = elim (free_through-Ends k g.myallocator hp) [
    | inl u ↦ rw (u.0, u.1, ◌>>=◌) tt
    | inr (ps, p', e, l, room) ↦ elim (free_through-Ends k g.concurrency_myallocator hc) [
      | inl u ↦ rw (e, l, u.0, u.1, ◌>>=◌) tt
      | inr (cs, c', e', l', room') ↦ rw (e, l, e', l', ◌>>=◌) (room, room', refl)
    ]
  ]

  module _ (arrays : (r : ℕ) → length (dram_slots r) ≡ max_slots) where
    start-Agree :
        (k : ℕ) (multi_thread : Bool) (g : Globals)
        → k < max_slots
        → PointerRoom (suc k) g.myallocator
        → PointerRoom (suc k) g.concurrency_myallocator
        → Agree k
            (step os dram_slots nvm_slots (Call.start multi_thread) g)
            (follow (Call.start multi_thread) (lives g))
    unfolding step init_fast_allocator
    start-Agree k true g room hp hc =
        let (a, e, h) =
          create-HasRoom os dram_slots nvm_slots k concurrency_alloc_size g.regions
            (arrays g.regions) room in
        rw e (PointerRoom-less k g.myallocator hp, h, refl)
    start-Agree k false g room hp hc =
        let (a, e, h) =
          create-HasRoom os dram_slots nvm_slots k alloc_size g.regions (arrays g.regions) room in
        rw e (h, PointerRoom-less k g.concurrency_myallocator hc, refl)

    step-Agree :
        (k : ℕ) (c : Call) (g : Globals)
        → k < max_slots
        → PointerRoom (suc k) g.myallocator
        → PointerRoom (suc k) g.concurrency_myallocator
        → Agree k (step os dram_slots nvm_slots c g) (follow c (lives g))
    step-Agree k (start multi_thread) g room hp hc = start-Agree k multi_thread g room hp hc
    step-Agree k (request size on_nvm) g room hp hc =
        request-Agree k size on_nvm g.myallocator g.concurrency_myallocator g.regions hp hc
    step-Agree k (concurrency_request size on_nvm) g room hp hc =
        concurrency_request-Agree k size on_nvm g.myallocator g.concurrency_myallocator g.regions hp
          hc
    step-Agree k free g room hp hc = free-Agree k g hp hc

    run_follows_from :
        (cs : List Call) (g : Globals)
        → length cs ≤ max_slots
        → PointerRoom (length cs) g.myallocator
        → PointerRoom (length cs) g.concurrency_myallocator
        → Option.map lives (run os dram_slots nvm_slots cs g) ≡ follow_all cs (lives g)
    unfolding run
    run_follows_from [] g short hp hc = refl
    run_follows_from (c ∷ cs) g short hp hc =
        on (λ g' h0 h1. run_follows_from cs g' (omega arith) h0 h1)
          (step os dram_slots nvm_slots c g) (follow c (lives g))
          (step-Agree (length cs) c g (omega arith) hp hc)
      where
        on :
            ((g' : Globals)
              → PointerRoom (length cs) g'.myallocator
              → PointerRoom (length cs) g'.concurrency_myallocator
              → Option.map lives (run os dram_slots nvm_slots cs g') ≡ follow_all cs (lives g'))
            → (m : Option Globals) (l : Option (Life × Life)) → Agree (length cs) m l
            → Option.map lives (m >>= run os dram_slots nvm_slots cs) ≡ (l >>= follow_all cs)
        on rest none none h = refl
        on rest (some g') (some l) h = rest g' h.0 h.1 ∙ ap (follow_all cs) h.2
        on rest none (some l) h = absurd h
        on rest (some g') none h = absurd h

    -- A sequence of at most 100 calls, from pointers that are null, with arrays of 100 entries: it
    -- is defined exactly when it follows the protocol, by which an allocator is used only between
    -- its making and `fast_free`, and `fast_free` is not called on an object that is deleted; and
    -- then it leaves each pointer null, usable or dangling as the protocol says.
    pub run_follows :
        (cs : List Call) (regions : ℕ)
        → length cs ≤ max_slots
        → Option.map lives (run os dram_slots nvm_slots cs (unset regions))
          ≡ follow_all cs (Life.absent, Life.absent)
    run_follows cs regions short = run_follows_from cs (unset regions) short tt tt
