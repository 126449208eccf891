-- ===== src/Afterwrite/Completes.antt =====
-- `read_after_write_job` of OptaneStudy/microbenchmark/read_after_write.cpp comes to its end.
use rw_sep.Prelude.{
  ℕ, ◌+◌, ◌*◌, ◌/◌, ◌^◌, ◌≤◌, ◌<◌, ◌≡◌, refl, ap, ◌∙◌, Option, some, List, [], ◌∷◌, length, set,
  get_elem?-set_self, All, arith,
}
use rw_sep.Prelude.Loops.{◌>>=◌}
use rw_sep.Machine.{Cpu, block, run}
use rw_sep.Memaccess.Stride.{stride_nt, stride_storeclwb}
use rw_sep.Memaccess.Kernels.{
  stride_nt-Traces, stride_storeclwb-Traces, stride_read_after_write-Traces,
}
use rw_sep.Fastalloc.{alloc_size, max_slots, round_up, freed_slots}
use rw_sep.Channels.{fast_free, free}
use rw_sep.Afterwrite.{
  stride_size, Buffers, init, read_clock, finish, task_separate, task_mixed, task_combined,
}
use rw_sep.Afterwrite.Init.{made, init-made}
use rw_sep.Afterwrite.Reorder.{quotient-small}
use rw_sep.Afterwrite.Tasks.{task_separate-Traces, task_mixed-Traces}
use rw_sep.Afterwrite.Job.{
  Bench, fence, release, barrier, job_separate, job_combined, job_task, grns, job_mixed,
  read_after_write_job,
}

-- A stage that ends, after the system has handed out `n` regions more.
abbrev pub Advances : (n : ℕ) → Bench → Option Bench → Type 0
Advances n s m = (s' : Bench) × (m ≡ some s') × (s'.regions ≡ s.regions + n)

Advances-then :
    (n k : ℕ) (s : Bench) (m : Option Bench) (r : Bench → Option Bench)
    → Advances n s m
    → ((s' : Bench) → Advances k s' (r s'))
    → Advances (n + k) s (m >>= r)
Advances-then n k s m r (s1, e, count) next =
    let (s2, e', count') = next s1 in (s2, ap (λ o. o >>= r) e ∙ e', omega (arith, count, count'))

barrier-Advances : (s : Bench) → Advances 0 s (barrier s)
unfolding barrier
barrier-Advances s = (record s { cpu = run fence s.cpu }, refl, omega arith)

-- A task that ends on every buffers.
abbrev Ends : (Buffers → Cpu → Option Cpu) → Type 0
Ends task = (b : Buffers) (c : Cpu) → (c' : Cpu) × (task b c ≡ some c')

freed_one :
    (slots : List ℕ) (p : ℕ)
    → length slots ≡ max_slots
    → freed_slots 1 0 (set slots 0 p) ≡ some (p ∷ [])
unfolding freed_slots
freed_one slots p h = rw (get_elem?-set_self slots 0 p (omega arith)) refl

module _ (os : ℕ → ℕ) (slots : List ℕ) (fuel count : ℕ) (arrays : length slots ≡ max_slots)
    (fits : round_up (count * stride_size) ≤ alloc_size / 2) where
  release-made :
      (r : ℕ) (c : Cpu)
      → release (made os slots r (round_up (count * stride_size))) c
        ≡ some (record { regions = r + 1 + 2 + 1 + 2; cpu = c })
  unfolding release fast_free free
  release-made r c =
      rw (freed_one slots (os r) arrays, freed_one slots (os (r + 1 + 2)) arrays) refl

  -- What stands between `init` and `fast_free` ends.
  stage :
      (s : Bench) (task : Buffers → Cpu → Option Cpu) (c : Cpu)
      → Ends task
      → Advances 6 s (init os slots s.regions count stride_size >>= λ b. task b c >>= release b)
  stage s task c ends =
      let b = made os slots s.regions (round_up (count * stride_size)) in
      let (c', e) = ends b c in
      (
        record { regions = s.regions + 1 + 2 + 1 + 2; cpu = c' },
        ap (λ m. m >>= λ b. task b c >>= release b)
              (init-made os slots s.regions count stride_size fits)
            ∙ ap (λ m. m >>= release b) e
            ∙ release-made s.regions c',
        omega arith,
      )

  job_task-Advances :
      (task : Buffers → Cpu → Option Cpu) (s : Bench)
      → Ends task
      → Advances 6 s (job_task os slots fuel count task s)
  unfolding job_task
  job_task-Advances task s ends = stage s task (run fence s.cpu) ends

  module _ (count_fits : count < 2 ^ 31) (enough : count < fuel) (delay_fuel : 1024 < fuel) where
    job_combined-Advances : (s : Bench) → Advances 6 s (job_combined os slots fuel count s)
    unfolding job_combined
    job_combined-Advances s =
        stage s (λ b. task_combined fuel count b.buf_sep1) s.cpu
          (λ b c.
            let (c', e, _) =
              stride_read_after_write-Traces b.buf_sep1 64 64 200 count fuel
                (run read_clock (run read_clock c)) (omega arith) (omega arith) (omega arith)
                (omega arith) (omega arith) enough in
            (run finish c', unfold task_combined in ap (λ m. m >>= block finish) e))

    job_separate-Advances : (s : Bench) → Advances 6 s (job_separate os slots fuel count s)
    unfolding job_separate
    job_separate-Advances s =
        stage s
          (λ b c.
            stride_storeclwb fuel b.buf_sep1 64 64 200 count c
            >>= block fence
            >>= block read_clock
            >>= stride_nt fuel b.buf_sep1 64 64 200 count
            >>= block finish)
          (run read_clock s.cpu)
          (λ b c.
            let (c1, e, _) =
              stride_storeclwb-Traces b.buf_sep1 64 64 200 count fuel c (omega arith) (omega arith)
                (omega arith) (omega arith) (omega arith) enough in
            let (c2, e', _) =
              stride_nt-Traces b.buf_sep1 64 64 200 count fuel (run read_clock (run fence c1))
                (omega arith) (omega arith) (omega arith) (omega arith) (omega arith) enough in
            (
              run finish c2,
              ap
                    (λ m.
                      m
                      >>= block fence
                      >>= block read_clock
                      >>= stride_nt fuel b.buf_sep1 64 64 200 count
                      >>= block finish)
                    e
                  ∙ ap (λ m. m >>= block finish) e',
            ))

    separate-Ends :
        (streamed : Buffers → ℕ) → Ends (λ b. task_separate fuel count b.buf_sep1 (streamed b))
    separate-Ends streamed b c =
        let (c', e, _) =
          task_separate-Traces fuel count b.buf_sep1 (streamed b) c count_fits enough
            (omega arith) in
        (c', e)

    mixed-Ends :
        (grn : ℕ) (streamed : Buffers → ℕ)
        → grn ≤ 16
        → Ends (λ b. task_mixed fuel count grn b.buf_sep1 (streamed b))
    mixed-Ends grn streamed small b c =
        let (c', e, _) =
          task_mixed-Traces fuel count grn b.buf_sep1 (streamed b) c (omega arith) (omega arith)
            (omega arith) (quotient-small count grn count_fits) in
        (c', e)

    job_mixed-Advances :
        (streamed : Buffers → ℕ) (gs : List ℕ) (s : Bench)
        → All (λ grn. grn ≤ 16) gs
        → Advances (length gs * 6) s (job_mixed os slots fuel count streamed gs s)
    unfolding job_mixed
    job_mixed-Advances streamed [] s h = (s, refl, omega arith)
    job_mixed-Advances streamed (grn ∷ gs) s h =
        let (s', e, n) =
          Advances-then 6 (length gs * 6) s _ (job_mixed os slots fuel count streamed gs)
            (job_task-Advances (λ b. task_mixed fuel count grn b.buf_sep1 (streamed b)) s
              (mixed-Ends grn streamed h.0))
            (λ t. job_mixed-Advances streamed gs t h.1) in
        (s', e, omega (arith, n))

    -- With buffers of at most half of ALLOC_SIZE, a count below 2 ^ 31, arrays of 100 pointers, and
    -- fuel above the count and 1024: the whole job comes to its end. Each of its fourteen calls of `init` succeeds, each
    -- kernel ends and each `fast_free` succeeds, and the system has handed out 84 regions.
    pub read_after_write_job_completes :
        (s : Bench)
        → (s' : Bench) × (read_after_write_job os slots fuel count s ≡ some s')
          × (s'.regions ≡ s.regions + 84)
    unfolding read_after_write_job
    read_after_write_job_completes s =
        let b = λ (n : ℕ) (m : Option Bench) (h : Advances n s m).
          Advances-then n 0 s m barrier h barrier-Advances in
        let small : All (λ grn. grn ≤ 16) grns = omega arith in
        let h1 = Advances-then 0 6 s _ _ (barrier-Advances s) job_separate-Advances in
        let h2 = Advances-then 6 6 s _ _ h1 job_combined-Advances in
        let h3 =
          Advances-then 12 6 s _ _ (b 12 _ h2)
            (λ t. job_task-Advances _ t (separate-Ends (λ b. b.buf_sep2))) in
        let h4 =
          Advances-then 18 30 s _ _ (b 18 _ h3)
            (λ t. job_mixed-Advances (λ b. b.buf_sep2) grns t small) in
        let h5 =
          Advances-then 48 6 s _ _ (b 48 _ h4)
            (λ t. job_task-Advances _ t (separate-Ends (λ b. b.buf_sep1_))) in
        let h6 =
          Advances-then 54 30 s _ _ (b 54 _ h5)
            (λ t. job_mixed-Advances (λ b. b.buf_sep1_) grns t small) in
        b 84 _ h6
