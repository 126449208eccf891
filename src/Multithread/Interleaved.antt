-- ===== src/Multithread/Interleaved.antt =====
-- The interleavings of the traces of several threads, and the events of one kind in them.
use rw_sep.Prelude.{◌≡◌, refl, ap, ◌∙◌, List, [], ◌∷◌, ◌++◌, All}
use rw_sep.Machine.{Event}
use rw_sep.Afterwrite.Order.{choose}

-- The interleavings of two traces, and of the traces of many threads.
pub data Merge : List Event → List Event → List Event → Type 0 where
  done : Merge [] [] []
  left : (e : Event) {es fs gs : List Event} → Merge es fs gs → Merge (e ∷ es) fs (e ∷ gs)
  right : (e : Event) {es fs gs : List Event} → Merge es fs gs → Merge es (e ∷ fs) (e ∷ gs)

pub data Interleaving : List (List Event) → List Event → Type 0 where
  no_thread : Interleaving [] []
  one_thread :
      {t es gs : List Event} {ts : List (List Event)}
      → Interleaving ts es
      → Merge t es gs
      → Interleaving (t ∷ ts) gs

empty-append : (es fs : List Event) → es ++ fs ≡ [] → (es ≡ []) × (fs ≡ [])
empty-append [] fs h = (refl, h)
empty-append (e ∷ es) fs h = absurd (cc h)

Merge-left :
    (f : Event → List Event) {es fs gs : List Event}
    → Merge es fs gs
    → choose f fs ≡ []
    → choose f gs ≡ choose f es
Merge-left f done h = refl
Merge-left f (left e m) h = ap (f e ++◌) (Merge-left f m h)
Merge-left f (right e {fs = fs} m) h =
    let (here, rest) = empty-append (f e) (choose f fs) h in rw here (Merge-left f m rest)

Merge-right :
    (f : Event → List Event) {es fs gs : List Event}
    → Merge es fs gs
    → choose f es ≡ []
    → choose f gs ≡ choose f fs
Merge-right f done h = refl
Merge-right f (right e m) h = ap (f e ++◌) (Merge-right f m h)
Merge-right f (left e {es = es} m) h =
    let (here, rest) = empty-append (f e) (choose f es) h in rw here (Merge-right f m rest)

Interleaving-empty :
    (f : Event → List Event) {ts : List (List Event)} {gs : List Event}
    → Interleaving ts gs
    → All (λ t. choose f t ≡ []) ts
    → choose f gs ≡ []
Interleaving-empty f no_thread h = refl
Interleaving-empty f (one_thread r m) h = Merge-right f m h.0 ∙ Interleaving-empty f r h.1

pub Interleaving-own :
    (f : Event → List Event) (before : List (List Event)) (t : List Event)
    (after : List (List Event)) (gs : List Event)
    → Interleaving (before ++ t ∷ after) gs
    → All (λ t. choose f t ≡ []) before
    → All (λ t. choose f t ≡ []) after
    → choose f gs ≡ choose f t
Interleaving-own f [] t after gs (one_thread r m) h k = Merge-left f m (Interleaving-empty f r k)
Interleaving-own f (b ∷ before) t after gs (one_thread {es = es} r m) h k =
    Merge-right f m h.0 ∙ Interleaving-own f before t after es r h.1 k
