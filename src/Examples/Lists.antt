-- ===== src/Examples/Lists.antt =====
-- The theorem on pmdk/lists.c at a concrete input.
use rw_sep.Prelude.{
  ℕ, ◌-◌, ◌≡◌, refl, ◌&&◌, ◌==◌, some, List, [], ◌∷◌, length, replicate, if◌then◌else◌, arith,
}
use rw_sep.Lists.{max_lists, Listbase, foo, print, Exit, main, parse_type, strcmp_zero}
use rw_sep.Lists.Roundtrip.{IsHeadFirst, contents, same_type, main_inserts}

-- The library's lists as lists.
abbrev push : ℕ → List ℕ → List ℕ
push v l = v ∷ l

abbrev values : List ℕ → List ℕ
values l = l

-- One digit.
abbrev digit : List ℕ → ℕ
digit [] = 0
digit (c ∷ cs) = c - 48

abbrev fresh : List (Listbase (List ℕ))
fresh = replicate 10 (record { foo_list = 7 ∷ []; bar_list = [] })

push-IsHeadFirst : IsHeadFirst (List ℕ) push values
push-IsHeadFirst v l = refl

main_inserts_example :
    (lists' : List (Listbase (List ℕ))) × (length lists' ≡ max_lists)
    × (main (List ℕ) push values digit ([] ∷ (51 ∷ []) ∷ foo ∷ (53 ∷ []) ∷ []) (some fresh)
        ≡ Exit.stored lists')
    × (main (List ℕ) push values digit ([] ∷ (51 ∷ []) ∷ foo ∷ print ∷ []) (some fresh)
        ≡ Exit.printed (contents (List ℕ) push values fresh 3 (parse_type foo)))
    × (main (List ℕ) push values digit ([] ∷ (51 ∷ []) ∷ foo ∷ print ∷ []) (some lists')
        ≡ Exit.printed (
            if (3 == 3) && same_type (parse_type foo) (parse_type foo)
            then 5 ∷ contents (List ℕ) push values fresh 3 (parse_type foo)
            else contents (List ℕ) push values fresh 3 (parse_type foo)))
unfolding parse_type strcmp_zero
main_inserts_example =
    main_inserts (List ℕ) push values push-IsHeadFirst digit [] (51 ∷ []) foo (53 ∷ []) [] (51 ∷ [])
      foo fresh refl (omega arith) (λ e. cc e) refl (omega arith) (λ e. cc e)
