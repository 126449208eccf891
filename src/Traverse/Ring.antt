-- ===== src/Traverse/Ring.antt =====
-- The ring that the worker of pm_study/microbenchmark/lat.cpp links, and the walk round it.
use rw_sep.Prelude.{
  ℕ, zero, suc, ◌<◌, ◌≡◌, refl, ap, ◌∙◌, sym, true, false, some, List, [], ◌∷◌, ◌++◌, All, length,
  set, get_elem?, length-set, get_elem?-set_self, get_elem?-set_ne, ◌==◌, arith,
}
use rw_sep.Chasing.Cycle.{NotIn, Distinct}
use rw_sep.Traverse.{Walk, then_visit, chase, link_chain}

-- From `a` the pointers lead through the list to `b`.
abbrev pub Leads : List ℕ → ℕ → List ℕ → ℕ → Type 0
Leads next a [] b = get_elem? next a ≡ some b
Leads next a (x ∷ xs) b = (get_elem? next a ≡ some x) × Leads next x xs b

pub Leads-append :
    (next : List ℕ) (a : ℕ) (xs : List ℕ) (s : ℕ) (ys : List ℕ) (b : ℕ)
    → Leads next a xs s
    → Leads next s ys b
    → Leads next a (xs ++ s ∷ ys) b
Leads-append next a [] s ys b h k = (h, k)
Leads-append next a (x ∷ xs) s ys b h k = (h.0, Leads-append next x xs s ys b h.1 k)

pub Leads-split :
    (next : List ℕ) (a : ℕ) (xs : List ℕ) (s : ℕ) (ys : List ℕ) (b : ℕ)
    → Leads next a (xs ++ s ∷ ys) b
    → Leads next a xs s × Leads next s ys b
Leads-split next a [] s ys b h = h
Leads-split next a (x ∷ xs) s ys b h =
    let rest = Leads-split next x xs s ys b h.1 in ((h.0, rest.0), rest.1)

-- A pointer outside the chain that is being linked stays.
link_chain_outside :
    (first prev : ℕ) (xs next : List ℕ) (p : ℕ)
    → NotIn p (prev ∷ xs)
    → get_elem? (link_chain first prev xs next) p ≡ get_elem? next p
unfolding link_chain
link_chain_outside first prev [] next p out =
    get_elem?-set_ne next prev p first (λ e. out.0 (sym e))
link_chain_outside first prev (x ∷ xs) next p out =
    link_chain_outside first x xs (set next prev x) p out.1
    ∙ get_elem?-set_ne next prev p x (λ e. out.0 (sym e))

pub link_chain-Leads :
    (first prev : ℕ) (xs next : List ℕ)
    → Distinct (prev ∷ xs)
    → All (λ p. p < length next) (prev ∷ xs)
    → Leads (link_chain first prev xs next) prev xs first
unfolding link_chain
link_chain-Leads first prev [] next distinct inside = get_elem?-set_self next prev first inside.0
link_chain-Leads first prev (x ∷ xs) next distinct inside =
    let kept = length-set next prev x in
    (
      link_chain_outside first x xs (set next prev x) prev distinct.0
          ∙ get_elem?-set_self next prev x inside.0,
      link_chain-Leads first x xs (set next prev x) distinct.1 (inside_of kept (x ∷ xs) inside.1),
    )
  where
    inside_of :
        length (set next prev x) ≡ length next
        → (ps : List ℕ) → All (λ p. p < length next) ps
        → All (λ p. p < length (set next prev x)) ps
    inside_of kept ps h = rw kept h

-- The first position on the way through the list to `b`.
abbrev pub first_of : List ℕ → ℕ → ℕ
first_of [] b = b
first_of (x ∷ xs) b = x

pub Leads-first_of :
    (next : List ℕ) (a : ℕ) (ps : List ℕ) (b : ℕ)
    → Leads next a ps b
    → get_elem? next a ≡ some (first_of ps b)
Leads-first_of next a [] b h = h
Leads-first_of next a (x ∷ xs) b h = h.0

-- A walk that leads back to its start visits what lies between, given fuel for each and one more.
pub chase-Leads :
    (next : List ℕ) (a : ℕ) (ps : List ℕ) (start fuel : ℕ)
    → Leads next a ps start
    → NotIn start ps
    → length ps < fuel
    → chase fuel (first_of ps start) start next ≡ Walk.walked ps
unfolding chase
chase-Leads next a ps start zero leads out enough = absurd (omega arith)
chase-Leads next a [] start (suc fuel) leads out enough =
    let back : (start == start) ≡ true = ground arith in rw (chase, back) refl
chase-Leads next a (x ∷ xs) start (suc fuel) leads out enough =
    let on : (x == start) ≡ false = ground (arith, out.0) in
    rw (chase, on, Leads-first_of next x xs start leads.1)
      (ap (then_visit x) (chase-Leads next x xs start fuel leads.1 out.1 (omega arith)))
