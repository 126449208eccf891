-- ===== src/Chasing/Cycle.antt =====
-- A chasing index as one cycle through all its positions.
use rw_sep.Prelude.{ℕ, ◌<◌, ◌≡◌, ◌≢◌, some, List, [], ◌∷◌, All, length, get_elem?}

abbrev pub NotIn : ℕ → List ℕ → Type 0
NotIn x = All (λ y. x ≢ y)

abbrev pub Distinct : List ℕ → Type 0
Distinct [] = Unit
Distinct (x ∷ xs) = NotIn x xs × Distinct xs

-- The index leads from 0 along the trail, which is written last position first.
abbrev pub Links : List ℕ → List ℕ → Type 0
Links cindex [] = ⊥
Links cindex (x ∷ []) = x ≡ 0
Links cindex (y ∷ x ∷ xs) = (get_elem? cindex x ≡ some y) × Links cindex (x ∷ xs)

-- The last position of a trail leads back to 0.
abbrev pub Closes : List ℕ → List ℕ → Type 0
Closes cindex [] = ⊥
Closes cindex (x ∷ xs) = get_elem? cindex x ≡ some 0

-- One cycle: `trail` begins at 0, follows the index, visits `csize` different positions, that is
-- each position below csize once, and closes.
pub record IsCycle (csize : ℕ) (cindex trail : List ℕ) : Type 0 where
  pub size : length cindex ≡ csize
  pub links : Links cindex trail
  pub closes : Closes cindex trail
  pub distinct : Distinct trail
  pub in_range : All (λ x. x < csize) trail
  pub complete : length trail ≡ csize
