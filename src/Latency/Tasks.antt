-- ===== src/Latency/Tasks.antt =====
-- The tasks of `latency_job` (OptaneStudy/microbenchmark/latency_job.c): kernel `bench_func[i]` is
-- run at addresses `latency_tasks_skip[i]` apart.
use rw_sep.Prelude.{
  ℕ, zero, suc, ◌+◌, ◌*◌, ◌/◌, ◌^◌, ◌<◌, true, List, [], ◌∷◌, ◌++◌, ◌≡◌, refl, ◌⊎◌, inl, inr, All,
  all, arith,
}
use rw_sep.Machine.{Event, Cpu, add64, sub64, run}
use rw_sep.Latency.Macros.{Kernel, call}
use rw_sep.Latency.Timing.{timed_properly, call-elapsed}
use rw_sep.Latency.Tables.{
  bench_func, latency_funcs_64byte, latency_funcs_128byte, latency_funcs_256byte,
  latency_tasks_skip,
}

pub all_kernels : List Kernel
unfolding bench_func latency_funcs_64byte latency_funcs_128byte latency_funcs_256byte
all_kernels = latency_funcs_64byte ++ latency_funcs_128byte ++ latency_funcs_256byte ++ bench_func

elapsed_of_proper :
    (ks : List Kernel) (addr : ℕ) (c : Cpu)
    → ((n : ℕ) → c.clock n < 2 ^ 64)
    → all (λ k. timed_properly (k addr)) ks ≡ true
    → All (λ k. (call (k addr) c).0 ≡ sub64 (c.clock (c.ticks + 1)) (c.clock c.ticks)) ks
elapsed_of_proper [] addr c bounded h = tt
elapsed_of_proper (k ∷ ks) addr c bounded h = (
  call-elapsed (k addr) c bounded (ground arith),
  elapsed_of_proper ks addr c bounded (ground arith),
)

-- Every kernel of the four tables returns the advance of the time-stamp counter from the first of
-- its two readings to the second, modulo 2 ^ 64, given a counter of 64 bits: the accesses between
-- the readings do not disturb the registers that keep the first one.
pub call-elapsed-All :
    (addr : ℕ) (c : Cpu)
    → ((n : ℕ) → c.clock n < 2 ^ 64)
    → All (λ k. (call (k addr) c).0 ≡ sub64 (c.clock (c.ticks + 1)) (c.clock c.ticks)) all_kernels
unfolding all_kernels
call-elapsed-All addr c bounded = elapsed_of_proper all_kernels addr c bounded refl

-- The events between the two readings of the counter.
unfoldable pub until_rdtscp : List Event → List Event
until_rdtscp [] = []
until_rdtscp (Event.rdtscp ∷ es) = []
until_rdtscp (e ∷ es) = e ∷ until_rdtscp es

unfoldable pub after_rdtscp : List Event → List Event
after_rdtscp [] = []
after_rdtscp (Event.rdtscp ∷ es) = es
after_rdtscp (e ∷ es) = after_rdtscp es

unfoldable pub window : List Event → List Event
unfolding until_rdtscp after_rdtscp
window es = until_rdtscp (after_rdtscp es)

-- Address and size of each load and store.
pub accesses : List Event → List (ℕ × ℕ)
accesses [] = []
accesses (Event.load a n ∷ es) = (a, n) ∷ accesses es
accesses (Event.nt_load a n ∷ es) = (a, n) ∷ accesses es
accesses (Event.store a n ∷ es) = (a, n) ∷ accesses es
accesses (Event.nt_store a n ∷ es) = (a, n) ∷ accesses es
accesses (_ ∷ es) = accesses es

-- `n` neighbouring pieces of `w` bytes each, upwards from `addr + w * i`.
pub tiles : (addr w i n : ℕ) → List (ℕ × ℕ)
tiles addr w i zero = []
tiles addr w i (suc n) = (add64 addr (w * i), w) ∷ tiles addr w (suc i) n

-- A list of proofs, one for each task.
infixr 3 ◌&◌
abbrev pub ◌&◌ : {P Q : Type 0} → P → Q → P × Q
p & q = (p, q)

abbrev pub measured : Kernel → ℕ → Cpu → List (ℕ × ℕ)
measured k addr c = accesses (window (call (k addr) (record c { trace = [] })).1.trace)

pub zip_tasks : List Kernel → List ℕ → List (Kernel × ℕ)
zip_tasks (k ∷ ks) (s ∷ ss) = (k, s) ∷ zip_tasks ks ss
zip_tasks _ _ = []

-- Between the readings, each kernel of `bench_func` accesses exactly the bytes from its address up
-- to the next task address, `latency_tasks_skip` further on, each once and in ascending order: in
-- pieces of a 32-byte register, or of 8 bytes for the `movq` kernels. The last one accesses
-- nothing.
pub measured-tiles :
    (addr : ℕ) (c : Cpu)
    → All
        (λ t.
          (measured t.0 addr c ≡ tiles addr 32 0 (t.1 / 32))
          ⊎ (measured t.0 addr c ≡ tiles addr 8 0 (t.1 / 8)))
        (zip_tasks bench_func latency_tasks_skip)
unfolding zip_tasks bench_func latency_tasks_skip accesses window tiles call run
measured-tiles addr c =
    inl refl
    & inl refl
    & inl refl
    & inl refl
    & inl refl
    & inr refl
    & inr refl
    & inr refl
    & inl refl
    & inl refl
    & inl refl
    & inl refl
    & inl refl
    & inr refl
    & inr refl
    & inr refl
    & inl refl
    & inl refl
    & inl refl
    & inl refl
    & inl refl
    & inr refl
    & inr refl
    & inr refl
    & inl refl
    & tt
