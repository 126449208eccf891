-- ===== src/Lists.antt =====
-- The program of pmdk/lists.c, which keeps lists of numbers in a persistent pool. The library's
-- lists are a parameter: `insert_new_head` is POBJ_LIST_INSERT_NEW_HEAD with the constructor that
-- stores the value, and `foreach` gives the values in the order of POBJ_LIST_FOREACH. So is `atoi`,
-- whose result is an `int` as a 32-bit word. An argument is the list of its characters.
pub mod Roundtrip
use rw_sep.Prelude.{
  ℕ, zero, suc, Bool, true, false, ◌&&◌, Option, none, some, List, [], ◌∷◌, leb, ◌==◌, get_elem?,
  set, if◌then◌else◌,
}

-- MAX_LISTS.
abbrev pub max_lists : ℕ
max_lists = 10

pub data ListType : Type 0 where
  list_invalid list_foo list_bar : ListType

pub record Listbase (L : Type 0) : Type 0 where
  pub foo_list : L
  pub bar_list : L

-- `strcmp(s, t) == 0`.
unfoldable pub strcmp_zero : List ℕ → List ℕ → Bool
strcmp_zero [] [] = true
strcmp_zero (a ∷ s) (b ∷ t) = (a == b) && strcmp_zero s t
strcmp_zero [] (b ∷ t) = false
strcmp_zero (a ∷ s) [] = false

-- "foo", "bar" and "print".
abbrev pub foo : List ℕ
foo = 102 ∷ 111 ∷ 111 ∷ []

abbrev pub bar : List ℕ
bar = 98 ∷ 97 ∷ 114 ∷ []

abbrev pub print : List ℕ
print = 112 ∷ 114 ∷ 105 ∷ 110 ∷ 116 ∷ []

unfoldable pub parse_type : List ℕ → ListType
unfolding strcmp_zero
parse_type arg =
    if strcmp_zero arg foo
    then ListType.list_foo
    else if strcmp_zero arg bar
    then ListType.list_bar
    else ListType.list_invalid

-- How `main` ends: `return 1` with one of its messages, or `return 0` with what it has printed or
-- with the lists as they are in the pool then. `asserted` is `assert(0)`, or an index outside the
-- array.
pub data Exit (L : Type 0) : Type 0 where
  usage no_pool out_of_scope invalid_type asserted : Exit L
  printed : List ℕ → Exit L
  stored : List (Listbase L) → Exit L

module _ (L : Type 0) (insert_new_head : ℕ → L → L) (foreach : L → List ℕ) where
  unfoldable pub list_print : Listbase L → ListType → Option (List ℕ)
  list_print base ListType.list_foo = some (foreach base.foo_list)
  list_print base ListType.list_bar = some (foreach base.bar_list)
  list_print base ListType.list_invalid = none

  unfoldable pub list_insert : Listbase L → ListType → (value : ℕ) → Option (Listbase L)
  list_insert base ListType.list_foo value =
      some (record base { foo_list = insert_new_head value base.foo_list })
  list_insert base ListType.list_bar value =
      some (record base { bar_list = insert_new_head value base.bar_list })
  list_insert base ListType.list_invalid value = none

  -- From the root object on.
  unfoldable pub act :
      (List ℕ → ℕ) → (id : ℕ) → ListType → (arg : List ℕ) → List (Listbase L) → Exit L
  unfolding list_print list_insert strcmp_zero
  act atoi id type arg lists = elim (get_elem? lists id) [
    | none ↦ Exit.asserted
    | some base ↦
        if strcmp_zero arg print
        then elim (list_print base type) [
          | none ↦ Exit.asserted
          | some values ↦ Exit.printed values
        ]
        else elim (list_insert base type (atoi arg)) [
          | none ↦ Exit.asserted
          | some base' ↦ Exit.stored (set lists id base')
        ]
  ]

  -- `main` on its four arguments. `pool` is what creating or opening the pool gives: its lists, or
  -- NULL.
  unfoldable pub main : (List ℕ → ℕ) → (argv : List (List ℕ)) → Option (List (Listbase L)) → Exit L
  unfolding act parse_type
  main atoi (path ∷ id ∷ type ∷ arg ∷ []) none = Exit.no_pool
  main atoi (path ∷ id ∷ type ∷ arg ∷ []) (some lists) =
      if leb max_lists (atoi id) then Exit.out_of_scope else elim (parse_type type) [
        | list_invalid ↦ Exit.invalid_type
        | list_foo ↦ act atoi (atoi id) ListType.list_foo arg lists
        | list_bar ↦ act atoi (atoi id) ListType.list_bar arg lists
      ]
  main atoi argv pool = Exit.usage
