-- ===== src/Afterwrite/Order.antt =====
-- The events of one kind in the traces of OptaneStudy/microbenchmark/read_after_write.cpp, and
-- passes over a buffer in chunks.
use rw_sep.Prelude.{
  ℕ, zero, suc, ◌+◌, ◌*◌, ◌<◌, List, [], ◌∷◌, ◌++◌, ◌≡◌, refl, ap, ◌∙◌, sym, append-nil,
  append_assoc, concat_upto, arith,
}
use rw_sep.Machine.{Event, add64}
use rw_sep.Memaccess.Rounds.{at_least_one, pieces, sweep}
use rw_sep.Memaccess.Kernels.{strided}

-- What a choice of events keeps of a trace.
abbrev pub choose : (Event → List Event) → List Event → List Event
choose f [] = []
choose f (e ∷ es) = f e ++ choose f es

-- The stores and flushes, and the non-temporal stores.
abbrev pub if_store : Event → List Event
if_store (Event.store a n) = Event.store a n ∷ []
if_store (Event.clwb a) = Event.clwb a ∷ []
if_store e = []

abbrev pub if_stream : Event → List Event
if_stream (Event.nt_store a n) = Event.nt_store a n ∷ []
if_stream e = []

pub choose-append :
    (f : Event → List Event) (es fs : List Event) → choose f (es ++ fs) ≡ choose f es ++ choose f fs
choose-append f [] fs = refl
choose-append f (e ∷ es) fs =
    ap (f e ++◌) (choose-append f es fs) ∙ sym (append_assoc (f e) (choose f es) (choose f fs))

pub choose-concat_upto :
    (f : Event → List Event) (part : ℕ → List Event) (n : ℕ)
    → choose f (concat_upto part n) ≡ concat_upto (λ i. choose f (part i)) n
unfolding concat_upto
choose-concat_upto f part zero = refl
choose-concat_upto f part (suc n) =
    choose-append f (concat_upto part n) (part n)
    ∙ ap (λ es. es ++ choose f (part n)) (choose-concat_upto f part n)

pub concat_upto_ext {ℓ} :
    {A : Type ℓ} (f g : ℕ → List A) (n : ℕ)
    → ((i : ℕ) → f i ≡ g i)
    → concat_upto f n ≡ concat_upto g n
concat_upto_ext f g n h = λ k. concat_upto (λ i. h i k) n

pub concat_upto_empty {ℓ} :
    {A : Type ℓ} (f : ℕ → List A) (n : ℕ) → ((i : ℕ) → f i ≡ []) → concat_upto f n ≡ []
unfolding concat_upto
concat_upto_empty f zero h = refl
concat_upto_empty f (suc n) h = rw (concat_upto_empty f n h, h n) refl

pub concat_upto_add {ℓ} :
    {A : Type ℓ} (f : ℕ → List A) (m n : ℕ)
    → concat_upto f (m + n) ≡ concat_upto f m ++ concat_upto (λ j. f (m + j)) n
unfolding concat_upto
concat_upto_add f m zero =
    let e : m + 0 ≡ m = omega arith in rw e (sym (append-nil (concat_upto f m)))
concat_upto_add f m (suc n) =
    let e : m + suc n ≡ suc (m + n) = omega arith in
    rw e (
      ap (λ es. es ++ f (m + n)) (concat_upto_add f m n)
      ∙ append_assoc (concat_upto f m) _ (f (m + n)))

-- The chunks of `g` make up the whole.
pub concat_upto_chunks {ℓ} :
    {A : Type ℓ} (f : ℕ → List A) (g n : ℕ)
    → concat_upto (λ i. concat_upto (λ j. f (g * i + j)) g) n ≡ concat_upto f (g * n)
unfolding concat_upto
concat_upto_chunks f g zero = let e : g * 0 ≡ 0 = omega arith in rw e refl
concat_upto_chunks f g (suc n) =
    let e : g * suc n ≡ g * n + g = omega arith in
    rw e (
      ap (λ es. es ++ concat_upto (λ j. f (g * n + j)) g) (concat_upto_chunks f g n)
      ∙ sym (concat_upto_add f (g * n) g))

-- The picked events of the k-th line from `a` up.
abbrev pub line_events : (Event → List Event) → (ℕ → List Event) → (a k : ℕ) → List Event
line_events f evs a k = choose f (evs (add64 a (64 * k)))

module _ (f : Event → List Event) (no_fence : f Event.mfence ≡ []) (evs : ℕ → List Event) where
  choose-sweep :
      (size a : ℕ) → choose f (sweep evs size a) ≡ concat_upto (line_events f evs a) (pieces size)
  choose-sweep size a =
      choose-append f (concat_upto (λ j. evs (add64 a (64 * j))) (pieces size)) (Event.mfence ∷ [])
      ∙ ap (λ es. choose f (concat_upto (λ j. evs (add64 a (64 * j))) (pieces size)) ++ es)
          (ap (λ es. es ++ []) no_fence)
      ∙ append-nil _
      ∙ choose-concat_upto f (λ j. evs (add64 a (64 * j))) (pieces size)

  pub one_line : (a i : ℕ) → choose f (sweep evs 64 (add64 a (64 * i))) ≡ line_events f evs a i
  unfolding concat_upto
  one_line a i = choose-sweep 64 (add64 a (64 * i)) ∙ ap (λ (p : ℕ). choose f (evs p)) (omega arith)

  pub choose-strided :
      (a count : ℕ)
      → choose f (strided evs a 64 64 count)
        ≡ concat_upto (line_events f evs a) (at_least_one count)
  choose-strided a count =
      choose-concat_upto f (λ i. sweep evs 64 (add64 a (64 * i))) (at_least_one count)
      ∙ concat_upto_ext _ _ (at_least_one count) (one_line a)

  -- One chunk of the mixed tasks.
  pub choose-chunk :
      (a grn i : ℕ)
      → 0 < grn
      → choose f (strided evs (add64 a (i * grn * 64)) (grn * 64) 0 1)
        ≡ concat_upto (λ j. line_events f evs a (grn * i + j)) grn
  unfolding concat_upto
  choose-chunk a grn i some_grn =
      let covers : pieces (grn * 64) ≡ grn = omega arith in
      choose-sweep (grn * 64) (add64 (add64 a (i * grn * 64)) (0 * 0))
      ∙ ap (concat_upto (line_events f evs (add64 (add64 a (i * grn * 64)) (0 * 0)))) covers
      ∙ concat_upto_ext _ _ grn (λ j. ap (λ (p : ℕ). choose f (evs p)) (omega arith))
