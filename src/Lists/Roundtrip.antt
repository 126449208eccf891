-- ===== src/Lists/Roundtrip.antt =====
-- What the program of pmdk/lists.c prints after it has inserted a value.
use rw_sep.Prelude.{
  ℕ, zero, suc, ◌<◌, ◌≡◌, ◌≢◌, refl, ap, ◌∙◌, Bool, true, false, ◌&&◌, Bool-cases, inl, inr, none,
  some, List, [], ◌∷◌, length, leb, ◌==◌, get_elem?, set, length-set, get_elem?-set_self,
  get_elem?-set_ne, if◌then◌else◌, arith,
}
use rw_sep.Lists.{
  max_lists, ListType, list_invalid, list_foo, list_bar, Listbase, strcmp_zero, print, parse_type,
  Exit, list_print, list_insert, act, main,
}

abbrev pub same_type : ListType → ListType → Bool
same_type list_foo list_foo = true
same_type list_bar list_bar = true
same_type list_invalid list_invalid = true
same_type s t = false

get_elem?-below {ℓ} :
    {A : Type ℓ} (xs : List A) (i : ℕ) → i < length xs → (x : A) × (get_elem? xs i ≡ some x)
get_elem?-below [] i h = absurd (omega arith)
get_elem?-below (x ∷ xs) zero h = (x, refl)
get_elem?-below (x ∷ xs) (suc i) h = get_elem?-below xs i (omega arith)

module _ (L : Type 0) (insert_new_head : ℕ → L → L) (foreach : L → List ℕ) where
  -- What the library says: a new head comes first, and the others stay.
  abbrev pub IsHeadFirst : Type 0
  IsHeadFirst = (v : ℕ) (l : L) → foreach (insert_new_head v l) ≡ v ∷ foreach l

  -- The values of the list that a type chooses, and an index before it.
  abbrev pub chosen : Listbase L → ListType → List ℕ
  chosen base list_invalid = []
  chosen base list_foo = foreach base.foo_list
  chosen base list_bar = foreach base.bar_list

  abbrev pub contents : List (Listbase L) → ℕ → ListType → List ℕ
  contents lists id type = elim (get_elem? lists id) [ none ↦ [] | some base ↦ chosen base type ]

  main_valid :
      (atoi : List ℕ → ℕ) (path id type arg : List ℕ) (lists : List (Listbase L)) (t : ListType)
      → parse_type type ≡ t
      → t ≢ list_invalid
      → atoi id < max_lists
      → main L insert_new_head foreach atoi (path ∷ id ∷ type ∷ arg ∷ []) (some lists)
        ≡ act L insert_new_head foreach atoi (atoi id) t arg lists
  unfolding main
  main_valid atoi path id type arg lists list_invalid e valid inside = absurd (valid refl)
  main_valid atoi path id type arg lists list_foo e valid inside =
      let small : leb max_lists (atoi id) ≡ false = ground arith in rw (small, e) refl
  main_valid atoi path id type arg lists list_bar e valid inside =
      let small : leb max_lists (atoi id) ≡ false = ground arith in rw (small, e) refl

  act_prints :
      (atoi : List ℕ → ℕ) (id : ℕ) (lists : List (Listbase L)) (t : ListType)
      → t ≢ list_invalid
      → id < length lists
      → act L insert_new_head foreach atoi id t print lists ≡ Exit.printed (contents lists id t)
  unfolding act list_print strcmp_zero
  act_prints atoi id lists list_invalid valid inside = absurd (valid refl)
  act_prints atoi id lists list_foo valid inside =
      let (base, found) = get_elem?-below lists id inside in rw (act, contents, found) refl
  act_prints atoi id lists list_bar valid inside =
      let (base, found) = get_elem?-below lists id inside in rw (act, contents, found) refl

  -- The base with the value inserted.
  abbrev grown : Listbase L → ListType → (v : ℕ) → Listbase L
  grown base list_invalid v = base
  grown base list_foo v = record base { foo_list = insert_new_head v base.foo_list }
  grown base list_bar v = record base { bar_list = insert_new_head v base.bar_list }

  act_stores :
      (atoi : List ℕ → ℕ) (id : ℕ) (arg : List ℕ) (lists : List (Listbase L)) (t : ListType)
      (base : Listbase L)
      → t ≢ list_invalid
      → get_elem? lists id ≡ some base
      → strcmp_zero arg print ≡ false
      → act L insert_new_head foreach atoi id t arg lists
        ≡ Exit.stored (set lists id (grown base t (atoi arg)))
  unfolding act list_insert
  act_stores atoi id arg lists list_invalid base valid found other = absurd (valid refl)
  act_stores atoi id arg lists list_foo base valid found other = rw (act, found, other) refl
  act_stores atoi id arg lists list_bar base valid found other = rw (act, found, other) refl

  chosen-grown :
      IsHeadFirst
      → (base : Listbase L) (t t' : ListType) (v : ℕ) → t ≢ list_invalid
      → chosen (grown base t v) t' ≡ (if same_type t t' then v ∷ chosen base t' else chosen base t')
  chosen-grown head_first base list_invalid t' v valid = absurd (valid refl)
  chosen-grown head_first base list_foo list_invalid v valid = refl
  chosen-grown head_first base list_foo list_foo v valid = head_first v base.foo_list
  chosen-grown head_first base list_foo list_bar v valid = refl
  chosen-grown head_first base list_bar list_invalid v valid = refl
  chosen-grown head_first base list_bar list_foo v valid = refl
  chosen-grown head_first base list_bar list_bar v valid = head_first v base.bar_list

  contents-grown :
      IsHeadFirst
      → (base : Listbase L) (lists : List (Listbase L)) (id id' : ℕ) (t t' : ListType) (v : ℕ)
      → t ≢ list_invalid
      → get_elem? lists id ≡ some base
      → id < length lists
      → contents (set lists id (grown base t v)) id' t' ≡ (
          if (id == id') && same_type t t'
          then v ∷ contents lists id' t'
          else contents lists id' t')
  contents-grown head_first base lists id id' t t' v valid found inside =
      elim (Bool-cases (id == id')) [
        | inr other ↦
            let ne : id ≢ id' = ground arith in
            rw (contents, get_elem?-set_ne lists id id' (grown base t v) ne, other) refl
        | inl here ↦
            let same : id' ≡ id = ground arith in
            let self : (id == id) ≡ true = ground arith in
            rw (same, contents, get_elem?-set_self lists id (grown base t v) inside, found, self)
              (chosen-grown head_first base t t' v valid)
      ]

  -- With lists that show a new head first and keep the others: on a pool of MAX_LISTS lists, with
  -- an index below MAX_LISTS, a type that is foo or bar and a last argument other than "print", the
  -- program stores its value; and a later run that prints shows, for the same index and type, this
  -- value and then what printing would have shown before, and otherwise what it would have shown.
  pub main_inserts :
      IsHeadFirst
      → (atoi : List ℕ → ℕ) (path id type arg path' id' type' : List ℕ) (lists : List (Listbase L))
      → length lists ≡ max_lists
      → atoi id < max_lists
      → parse_type type ≢ list_invalid
      → strcmp_zero arg print ≡ false
      → atoi id' < max_lists
      → parse_type type' ≢ list_invalid
      → (lists' : List (Listbase L)) × (length lists' ≡ max_lists)
        × (main L insert_new_head foreach atoi (path ∷ id ∷ type ∷ arg ∷ []) (some lists)
            ≡ Exit.stored lists')
        × (main L insert_new_head foreach atoi (path' ∷ id' ∷ type' ∷ print ∷ []) (some lists)
            ≡ Exit.printed (contents lists (atoi id') (parse_type type')))
        × (main L insert_new_head foreach atoi (path' ∷ id' ∷ type' ∷ print ∷ []) (some lists')
            ≡ Exit.printed (
                if (atoi id == atoi id') && same_type (parse_type type) (parse_type type')
                then atoi arg ∷ contents lists (atoi id') (parse_type type')
                else contents lists (atoi id') (parse_type type')))
  main_inserts head_first atoi path id type arg path' id' type' lists size inside valid other
        inside' valid' =
      let (base, found) = get_elem?-below lists (atoi id) (omega arith) in
      let t = parse_type type in
      let t' = parse_type type' in
      let lists' = set lists (atoi id) (grown base t (atoi arg)) in
      let size' : length lists' ≡ max_lists = length-set lists (atoi id) _ ∙ size in
      (
        lists',
        size',
        main_valid atoi path id type arg lists t refl valid inside
            ∙ act_stores atoi (atoi id) arg lists t base valid found other,
        main_valid atoi path' id' type' print lists t' refl valid' inside'
            ∙ act_prints atoi (atoi id') lists t' valid' (omega arith),
        main_valid atoi path' id' type' print lists' t' refl valid' inside'
            ∙ act_prints atoi (atoi id') lists' t' valid' (omega (arith, size'))
            ∙ ap Exit.printed (
                contents-grown head_first base lists (atoi id) (atoi id') t t' (atoi arg) valid
                  found (omega arith)),
      )
