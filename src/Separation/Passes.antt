-- ===== src/Separation/Passes.antt =====
-- What one pass of the loops of fastallocate/rw_sep.cpp does to the objects, and what it accesses.
use rw_sep.Prelude.{
  ℕ, zero, suc, ◌+◌, ◌*◌, ◌<◌, ◌≡◌, refl, ap, sym, Option, none, some, List, [], ◌∷◌, ◌++◌,
  append_assoc, append-nil, length, get_elem?, set, length-set, arith,
}
use rw_sep.Machine.{add64}
use rw_sep.Separation.{
  Access, Bench, read_object, stream_si32, stream_object, mix_loop, read_pairs, stream_pairs,
}

-- The write of one object, on the words alone.
unfoldable pub bumped : List ℕ → ℕ → List ℕ
bumped xs k = elim (get_elem? xs k) [ none ↦ xs | some v ↦ set xs k (stream_si32 v (add64 v 1)) ]

-- The objects 4 * j, …, 4 * (j + left - 1), one after another.
unfoldable pub bumped_from : (left j : ℕ) → List ℕ → List ℕ
unfolding bumped
bumped_from zero j xs = xs
bumped_from (suc left) j xs = bumped_from left (j + 1) (bumped xs (4 * j))

pub length-bumped : (xs : List ℕ) (k : ℕ) → length (bumped xs k) ≡ length xs
unfolding bumped
length-bumped xs k = go (get_elem? xs k)
  where
    go :
        (o : Option ℕ)
        → length (elim o [ none ↦ xs | some v ↦ set xs k (stream_si32 v (add64 v 1)) ]) ≡ length xs
    go none = refl
    go (some v) = length-set xs k (stream_si32 v (add64 v 1))

-- What a loop's accesses are.
unfoldable pub mixed : (left j : ℕ) → List Access
mixed zero j = []
mixed (suc left) j =
    Access.read (4 * j) ∷ Access.read (4 * j) ∷ Access.stream (4 * j) ∷ mixed left (j + 1)

unfoldable pub reads : (left j : ℕ) → List Access
reads zero j = []
reads (suc left) j = Access.read (4 * j) ∷ reads left (j + 1)

unfoldable pub streams : (left j : ℕ) → List Access
streams zero j = []
streams (suc left) j = Access.read (4 * j) ∷ Access.stream (4 * j) ∷ streams left (j + 1)

pub present : (xs : List ℕ) (k : ℕ) → k < length xs → (v : ℕ) × (get_elem? xs k ≡ some v)
present [] k h = absurd (omega arith)
present (x ∷ xs) zero h = (x, refl)
present (x ∷ xs) (suc k) h = present xs k (omega arith)

pub read_object_lem :
    (k : ℕ) (s : Bench)
    → k < length s.objects
    → read_object k s ≡ some (record s { log = s.log ++ Access.read k ∷ [] })
unfolding read_object
read_object_lem k s h = let (v, e) = present s.objects k h in rw e

pub stream_object_lem :
    (k : ℕ) (s : Bench)
    → k < length s.objects
    → stream_object k s
      ≡ some (record {
        objects = bumped s.objects k;
        log = s.log ++ Access.read k ∷ Access.stream k ∷ [];
      })
unfolding stream_object bumped present
stream_object_lem k s h = let (v, e) = present s.objects k h in rw (bumped, e)

pub mix_loop_lem :
    (left j : ℕ) (s : Bench)
    → 4 * (j + left) < length s.objects + 4
    → mix_loop left j s
      ≡ some (record { objects = bumped_from left j s.objects; log = s.log ++ mixed left j })
unfolding mix_loop bumped_from mixed
mix_loop_lem zero j s h = ap (λ es. some (record s { log = es })) (sym (append-nil s.log))
mix_loop_lem (suc left) j s h =
    let here : j + 0 ≡ j = omega arith in
    let s1 : Bench = record s { log = s.log ++ Access.read (4 * j) ∷ [] } in
    let s2 : Bench = record {
      objects = bumped s.objects (4 * j);
      log = s1.log ++ Access.read (4 * j) ∷ Access.stream (4 * j) ∷ [];
    } in
    rw
      (
        here,
        read_object_lem (4 * j) s (omega arith),
        stream_object_lem (4 * j) s1 (omega arith),
        mix_loop_lem left (j + 1) s2 (omega (arith, length-bumped s.objects (4 * j))),
      )
      (ap (λ es. some (record { objects = bumped_from left (j + 1) s2.objects; log = es }))
        (simp append_assoc))

pub read_pairs_lem :
    (left j : ℕ) (s : Bench)
    → 4 * (j + 2 * left) < length s.objects + 4
    → read_pairs left j s ≡ some (record s { log = s.log ++ reads (2 * left) j })
unfolding read_pairs reads
read_pairs_lem zero j s h = ap (λ es. some (record s { log = es })) (sym (append-nil s.log))
read_pairs_lem (suc left) j s h =
    let two : 2 * suc left ≡ suc (suc (2 * left)) = omega arith in
    let next : j + 1 + 1 ≡ j + 2 = omega arith in
    let s1 : Bench = record s { log = s.log ++ Access.read (4 * j) ∷ [] } in
    let s2 : Bench = record s1 { log = s1.log ++ Access.read (4 * (j + 1)) ∷ [] } in
    rw
      (
        read_object_lem (4 * j) s (omega arith),
        read_object_lem (4 * (j + 1)) s1 (omega arith),
        read_pairs_lem left (j + 2) s2 (omega arith),
        two,
        next,
      )
      (ap (λ es. some (record s { log = es })) (simp append_assoc))

-- Two steps at once.
bumped_from_two :
    (left j : ℕ) (xs : List ℕ)
    → bumped_from (suc (suc left)) j xs
      ≡ bumped_from left (j + 2) (bumped (bumped xs (4 * j)) (4 * (j + 1)))
unfolding bumped_from
bumped_from_two left j xs =
    ap (λ k. bumped_from left k (bumped (bumped xs (4 * j)) (4 * (j + 1)))) (omega arith)

streams_two :
    (left j : ℕ)
    → streams (suc (suc left)) j
      ≡ Access.read (4 * j)
        ∷ Access.stream (4 * j)
        ∷ Access.read (4 * (j + 1))
        ∷ Access.stream (4 * (j + 1))
        ∷ streams left (j + 2)
unfolding streams
streams_two left j =
    ap
      (λ k.
        Access.read (4 * j)
        ∷ Access.stream (4 * j)
        ∷ Access.read (4 * (j + 1))
        ∷ Access.stream (4 * (j + 1))
        ∷ streams left k)
      (omega arith)

pub stream_pairs_lem :
    (left j : ℕ) (s : Bench)
    → 4 * (j + 2 * left) < length s.objects + 4
    → stream_pairs left j s
      ≡ some (record {
        objects = bumped_from (2 * left) j s.objects;
        log = s.log ++ streams (2 * left) j;
      })
unfolding stream_pairs
stream_pairs_lem zero j s h =
    unfold bumped_from streams in ap (λ es. some (record s { log = es })) (sym (append-nil s.log))
stream_pairs_lem (suc left) j s h =
    let two : 2 * suc left ≡ suc (suc (2 * left)) = omega arith in
    let s1 : Bench = record {
      objects = bumped s.objects (4 * j);
      log = s.log ++ Access.read (4 * j) ∷ Access.stream (4 * j) ∷ [];
    } in
    let s2 : Bench = record {
      objects = bumped s1.objects (4 * (j + 1));
      log = s1.log ++ Access.read (4 * (j + 1)) ∷ Access.stream (4 * (j + 1)) ∷ [];
    } in
    let kept = length-bumped s.objects (4 * j) in
    let kept' = length-bumped s1.objects (4 * (j + 1)) in
    rw
      (
        stream_object_lem (4 * j) s (omega arith),
        stream_object_lem (4 * (j + 1)) s1 (omega (arith, kept)),
        stream_pairs_lem left (j + 2) s2 (omega (arith, kept, kept')),
        two,
        bumped_from_two,
        streams_two,
      )
      (simp append_assoc)
