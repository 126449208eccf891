-- ===== src/Separation/Order.antt =====
-- Mixed and separated accesses of fastallocate/rw_sep.cpp compared.
use mathlib.Core.List.{Perm, perm_middle}
use mathlib.Core.List.Perm
use rw_sep.Prelude.{
  ℕ, zero, suc, ◌+◌, ◌*◌, ◌/◌, ◌<◌, ◌≡◌, refl, ap, ◌∙◌, sym, some, List, [], ◌∷◌, ◌++◌, length,
  arith,
}
use rw_sep.Separation.{Access, Bench, n_rw, mix_round, sep_round, wr_mix, wr_sep}
use rw_sep.Separation.Passes.{bumped_from, mixed, reads, streams}
use rw_sep.Separation.Rounds.{
  round_count-some, length-bumped_from, mix_round_lem, sep_round_lem, after_rounds, repeated,
  rounds_lem,
}

-- The accesses that write.
pub writes : List Access → List Access
writes [] = []
writes (Access.read k ∷ es) = writes es
writes (Access.stream k ∷ es) = Access.stream k ∷ writes es
writes (Access.fence ∷ es) = writes es

-- A round's accesses, mixed, are those of its reads and of its writes.
mixed-perm : (n j : ℕ) → Perm (mixed n j) (reads n j ++ streams n j)
unfolding mixed reads streams
mixed-perm zero j = Perm.refl []
mixed-perm (suc n) j = Perm.cons (Access.read (4 * j)) (
    Perm.trans
      (Perm.cons (Access.read (4 * j)) (Perm.cons (Access.stream (4 * j)) (mixed-perm n (j + 1))))
      (Perm.symm (
        Perm.trans (perm_middle (reads n (j + 1)) (Access.stream (4 * j) ∷ streams n (j + 1)))
          (Perm.cons (Access.read (4 * j)) (perm_middle (reads n (j + 1)) (streams n (j + 1)))))))

writes-append : (xs ys : List Access) → writes (xs ++ ys) ≡ writes xs ++ writes ys
unfolding writes
writes-append [] ys = refl
writes-append (Access.read k ∷ xs) ys = writes-append xs ys
writes-append (Access.stream k ∷ xs) ys = ap (λ es. Access.stream k ∷ es) (writes-append xs ys)
writes-append (Access.fence ∷ xs) ys = writes-append xs ys

writes-reads : (n j : ℕ) → writes (reads n j) ≡ []
unfolding writes reads
writes-reads zero j = refl
writes-reads (suc n) j = writes-reads n (j + 1)

writes-mixed : (n j : ℕ) → writes (mixed n j) ≡ writes (streams n j)
unfolding writes mixed streams
writes-mixed zero j = refl
writes-mixed (suc n) j = ap (λ es. Access.stream (4 * j) ∷ es) (writes-mixed n (j + 1))

writes-repeated :
    (k : ℕ) (xs ys : List Access)
    → writes xs ≡ writes ys
    → writes (repeated k xs) ≡ writes (repeated k ys)
unfolding repeated
writes-repeated zero xs ys e = refl
writes-repeated (suc k) xs ys e =
    writes-append xs (repeated k xs)
    ∙ rw (e, writes-repeated k xs ys e) (sym (writes-append ys (repeated k ys)))

repeated-perm : (k : ℕ) {xs ys : List Access} → Perm xs ys → Perm (repeated k xs) (repeated k ys)
unfolding repeated
repeated-perm zero p = Perm.refl []
repeated-perm (suc k) p = Perm.append p (repeated-perm k p)

-- For an even sep_grn above 0 whose objects are all in the array: wr_mix and wr_sep both end; they leave
-- the same words in the objects, write to the same objects in the same order, and the accesses of
-- one, the reads included, are those of the other in another order.
pub wr_sep_reorders :
    (n : ℕ) (s : Bench)
    → 0 < n
    → 4 * (2 * n) < length s.objects + 4
    → (mix : Bench) × (sep : Bench) × (wr_mix (2 * n) s ≡ some mix)
      × (wr_sep (2 * n) s ≡ some sep)
      × (mix.objects ≡ sep.objects)
      × (writes mix.log ≡ writes sep.log)
      × Perm mix.log sep.log
unfolding wr_mix wr_sep
wr_sep_reorders n s pos h =
    let k : ℕ = n_rw / (2 * n) in
    let turns = round_count-some (2 * n) (omega arith) in
    let f = bumped_from (2 * n) 0 in
    let apart = reads (2 * n) 0 ++ streams (2 * n) 0 in
    let same : writes (mixed (2 * n) 0) ≡ writes apart =
      writes-mixed (2 * n) 0
      ∙ sym (
          writes-append (reads (2 * n) 0) (streams (2 * n) 0)
          ∙ ap (λ es. es ++ writes (streams (2 * n) 0)) (writes-reads (2 * n) 0)) in
    (
      record { objects = after_rounds k f s.objects; log = s.log ++ repeated k (mixed (2 * n) 0) },
      record { objects = after_rounds k f s.objects; log = s.log ++ repeated k apart },
      rw turns (
          rounds_lem (4 * (2 * n)) (mix_round (2 * n)) f (mixed (2 * n) 0)
            (length-bumped_from (2 * n) 0) (mix_round_lem (2 * n)) k s h),
      rw turns (
          rounds_lem (4 * (2 * n)) (sep_round (2 * n)) f apart (length-bumped_from (2 * n) 0)
            (sep_round_lem n) k s h),
      refl,
      writes-append s.log (repeated k (mixed (2 * n) 0))
          ∙ ap (λ es. writes s.log ++ es) (writes-repeated k (mixed (2 * n) 0) apart same)
          ∙ sym (writes-append s.log (repeated k apart)),
      Perm.append_left s.log (repeated-perm k (mixed-perm (2 * n) 0)),
    )
