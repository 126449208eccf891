-- ===== src/Fastalloc/Free.antt =====
-- What `fastalloc::free` (fastallocate/fastalloc.cpp) gives back.
use rw_sep.Prelude.{
  ℕ, zero, suc, ◌+◌, ◌<◌, ◌≤◌, ◌≡◌, refl, ap, ◌∙◌, some, List, [], ◌∷◌, length, get_elem?, arith,
}
use rw_sep.Fastalloc.{Fastalloc, freed_slots, free}

present : (xs : List ℕ) (i : ℕ) → i < length xs → (x : ℕ) × (get_elem? xs i ≡ some x)
present [] i h = absurd (omega arith)
present (x ∷ xs) zero h = (x, refl)
present (x ∷ xs) (suc i) h = present xs i (omega arith)

-- The pointers of `left` slots from slot `i` up.
record ReadOut (left i : ℕ) (slots : List ℕ) : Type 0 where
  ps : List ℕ
  returns : freed_slots left i slots ≡ some ps
  all_of_them : length ps ≡ left
  in_order : (j : ℕ) → j < left → get_elem? ps j ≡ get_elem? slots (i + j)

freed_slots-ReadOut : (left i : ℕ) (slots : List ℕ) → i + left ≤ length slots → ReadOut left i slots
unfolding freed_slots
freed_slots-ReadOut zero i slots h = record {
  ps = [];
  returns = refl;
  all_of_them = refl;
  in_order = λ j b. absurd (omega arith);
}
freed_slots-ReadOut (suc left) i slots h =
    let (p, here) = present slots i (omega arith) in
    let rest = freed_slots-ReadOut left (i + 1) slots (omega arith) in
    record {
      ps = p ∷ rest.ps;
      returns = rw (here, rest.returns);
      all_of_them = ap suc rest.all_of_them;
      in_order = in_order_from p here rest;
    }
  where
    in_order_from :
        (p : ℕ)
        → get_elem? slots i ≡ some p
        → (rest : ReadOut left (i + 1) slots) → (j : ℕ) → j < suc left
        → get_elem? (p ∷ rest.ps) j ≡ get_elem? slots (i + j)
    in_order_from p here rest zero b = let first : i + 0 ≡ i = omega arith in rw first (rw here)
    in_order_from p here rest (suc j) b =
        let next : i + suc j ≡ i + 1 + j = omega arith in rw next (rest.in_order j (omega arith))

-- With no more arenas on DRAM than the array has slots: `free` gives to `delete[]` the pointer of
-- each of them, once and in order, and leaves no DRAM to bump; the side of persistent memory stays
-- as it is, with its regions.
pub free_dram_only :
    (a : Fastalloc)
    → a.dram.cnt ≤ length a.dram.slots
    → (ps : List ℕ) × (a' : Fastalloc) × (free a ≡ some (ps, a'))
      × (length ps ≡ a.dram.cnt)
      × ((i : ℕ) → i < a.dram.cnt → get_elem? ps i ≡ get_elem? a.dram.slots i)
      × (a'.dram.left ≡ 0)
      × (a'.dram.curr ≡ 0)
      × (a'.nvm ≡ a.nvm)
unfolding free
free_dram_only a h =
    let f = freed_slots-ReadOut a.dram.cnt 0 a.dram.slots (omega arith) in
    (
      f.ps,
      record a { dram = record { slots = a.dram.slots; curr = 0; left = 0; cnt = a.dram.cnt } },
      rw f.returns,
      f.all_of_them,
      λ i b. f.in_order i b ∙ ap (get_elem? a.dram.slots) (omega arith),
      refl,
      refl,
      refl,
    )
