-- ===== src/Channels/Files.antt =====
-- Which files the allocators of OptaneStudy/src/fastalloc.cpp map.
use rw_sep.Prelude.{
  ℕ, zero, suc, ◌+◌, ◌≡◌, ◌≢◌, refl, ap, Bool, true, false, Bool-cases, inl, inr, Option, none,
  some, List, [], ◌∷◌, ◌++◌, All, All-append, ltb, leb, arith,
}
use rw_sep.Fastalloc.{max_slots, round_up, open_arena, alloc_side, bump}
use rw_sep.Channels.{
  Allocator, File, Started, constructed, open_nvm, open_both, bump_nvm, init, alloc,
}

-- The files of a channel with the numbers 0, …, n - 1.
abbrev pub files_upto : (channel n : ℕ) → List File
files_upto channel zero = []
files_upto channel (suc n) =
    files_upto channel n ++ record { channel = channel; numbers = n ∷ [] } ∷ []

files_upto-suc :
    (fs : List File) (channel ch n : ℕ)
    → fs ≡ files_upto ch n
    → channel ≡ ch
    → fs ++ record { channel = channel; numbers = n ∷ [] } ∷ [] ≡ files_upto ch (n + 1)
files_upto-suc fs channel ch n e e' = let one : n + 1 ≡ suc n = omega arith in rw (e, e', one) refl

-- The files that are mapped are the first ones of the channel, one for each arena.
pub record OnChannel (ch : ℕ) (a : Allocator) : Type 0 where
  pub channel : a.channel ≡ ch
  pub files : a.files ≡ files_upto ch a.nvm.cnt

-- A predicate on the result, where there is one.
abbrev Every {ℓ} : {A : Type ℓ} → (A → Type 0) → Option A → Type 0
Every P none = Unit
Every P (some x) = P x

alloc-OnChannel :
    (os : ℕ → ℕ) (ch size : ℕ) (on_nvm : Bool) (a : Allocator)
    → OnChannel ch a
    → Every (λ x. OnChannel ch x.1) (alloc os size on_nvm a)
unfolding alloc open_nvm open_arena bump_nvm bump alloc_side
alloc-OnChannel os ch size true a h = elim (Bool-cases (ltb a.nvm.left (round_up size))) [
  | inr fits ↦ rw fits (record { channel = h.channel; files = h.files })
  | inl full ↦ elim (Bool-cases (ltb a.nvm.cnt max_slots)) [
    | inr none_left ↦ rw (full, none_left) tt
    | inl room ↦
        rw (full, room)
          (record {
            channel = h.channel;
            files = files_upto-suc a.files a.channel ch a.nvm.cnt h.files h.channel;
          })
  ]
]
alloc-OnChannel os ch size false a h = elim (Bool-cases (ltb a.dram.left (round_up size))) [
  | inr fits ↦ rw fits (record { channel = h.channel; files = h.files })
  | inl full ↦ elim (Bool-cases (ltb a.dram.cnt max_slots)) [
    | inr none_left ↦ rw (full, none_left) tt
    | inl room ↦ rw (full, room) (record { channel = h.channel; files = h.files })
  ]
]

abbrev EveryStarted : (Allocator → Type 0) → Started → Type 0
EveryStarted P Started.exited = Unit
EveryStarted P (Started.started m) = Every P m

init-OnChannel :
    (os : ℕ → ℕ) (ch channel : ℕ) (dram_slots nvm_slots : List ℕ) (regions : ℕ)
    → EveryStarted (OnChannel ch) (init os ch (constructed channel dram_slots nvm_slots regions))
unfolding init open_both open_nvm open_arena constructed
init-OnChannel os ch channel dram_slots nvm_slots regions = elim (Bool-cases (leb 4 ch)) [
  | inl bad ↦ rw bad tt
  | inr good ↦ rw good (record { channel = refl; files = refl })
]

-- The allocators that `init` with channel `ch` and then requests of either kind lead to.
pub data Reached (os : ℕ → ℕ) (ch : ℕ) : Allocator → Type 0 where
  by_init :
      (channel regions : ℕ) (dram_slots nvm_slots : List ℕ) {a : Allocator}
      → init os ch (constructed channel dram_slots nvm_slots regions) ≡ Started.started (some a)
      → Reached os ch a
  by_alloc :
      (size p : ℕ) (on_nvm : Bool) {a a' : Allocator}
      → Reached os ch a
      → alloc os size on_nvm a ≡ some (p, a')
      → Reached os ch a'

pub Reached-OnChannel : {os : ℕ → ℕ} {ch : ℕ} {a : Allocator} → Reached os ch a → OnChannel ch a
Reached-OnChannel {os} {ch} (by_init channel regions dram_slots nvm_slots e) =
    rw e at (init-OnChannel os ch channel dram_slots nvm_slots regions)
Reached-OnChannel {os} {ch} (by_alloc size p on_nvm {a = a} r e) =
    rw e at (alloc-OnChannel os ch size on_nvm a (Reached-OnChannel r))

-- No file of one list is in the other.
abbrev pub NoneShared : List File → List File → Type 0
NoneShared fs gs = All (λ f. All (λ g. f ≢ g) gs) fs

All-files_upto :
    (P : File → Type 0) (ch n : ℕ)
    → ((k : ℕ) → P (record { channel = ch; numbers = k ∷ [] }))
    → All P (files_upto ch n)
All-files_upto P ch zero h = tt
All-files_upto P ch (suc n) h =
    All-append P (files_upto ch n) (record { channel = ch; numbers = n ∷ [] } ∷ [])
      (All-files_upto P ch n h) (h n, tt)

files_upto-NoneShared :
    (ch ch' n n' : ℕ) → ch ≢ ch' → NoneShared (files_upto ch n) (files_upto ch' n')
files_upto-NoneShared ch ch' n n' ne =
    All-files_upto (λ f. All (λ g. f ≢ g) (files_upto ch' n')) ch n
      λ k.
        All-files_upto (λ g. record { channel = ch; numbers = k ∷ [] } ≢ g) ch' n'
          λ k' e. ne (ap (λ (f : File). f.channel) e)

-- In any two allocators that `init` and requests lead to, on one system or on two, the files that
-- each has mapped are the first ones of its channel, in order, one for each arena of persistent
-- memory. On different channels they share no file.
pub Reached_files :
    (os os' : ℕ → ℕ) (ch ch' : ℕ) (a b : Allocator)
    → Reached os ch a
    → Reached os' ch' b
    → (a.files ≡ files_upto ch a.nvm.cnt)
      × (b.files ≡ files_upto ch' b.nvm.cnt)
      × (ch ≢ ch' → NoneShared a.files b.files)
Reached_files os os' ch ch' a b r r' =
    let fa = (Reached-OnChannel r).files in
    let fb = (Reached-OnChannel r').files in
    (fa, fb, λ ne. rw (fa, fb) (files_upto-NoneShared ch ch' a.nvm.cnt b.nvm.cnt ne))
