-- ===== src/Tests/Pages.antt =====
-- Pages of objects, and their theorems there.
use librascal.Prelude.{ℕ, ◌+◌, ◌≤◌, ◌≡◌, ◌↔◌, ◌⊎◌, refl, true, none, some, List, [], ◌∷◌, length}
use librascal.Util.Pages.{Page, all_indexes, new_page, alloc, free_in, pmalloc}
use librascal.Util.Pages.Fresh.Elements.{element}
use librascal.Util.Pages.Fresh.{allocs, frees, done, next, page_lives}
use librascal.Util.Pages.Fresh.Count.{count}
use librascal.Util.Pages.First.{Given, Refused, pmalloc-Given}

-- A page of three objects of eight bytes, after one is given out, and after another.
abbrev fresh : Page
fresh = new_page 3 8

abbrev one_out : Page
one_out = record { itemsize = 8; available = 2; index = 0 ∷ 1 ∷ 2 ∷ [] }

abbrev two_out : Page
two_out = record { itemsize = 8; available = 1; index = 0 ∷ 1 ∷ 2 ∷ [] }

first_out : alloc 8 fresh ≡ (some 40, one_out)
unfolding alloc new_page all_indexes
first_out = refl

second_out : alloc 8 one_out ≡ (some 24, two_out)
unfolding alloc
second_out = refl

-- What is in use once the first has come back.
abbrev in_use : List ℕ
in_use = 24 ∷ []

page_lives_example :
    ((i : ℕ) → count (element 8 i) in_use ≤ 1)
    × ((free_in 40 two_out).available + length in_use ≡ 3)
    × (((alloc 8 (free_in 40 two_out)).0 ≡ none) ↔ (length in_use ≡ 3))
page_lives_example = page_lives 3 8 (
    next (allocs fresh one_out [] 40 first_out) (
      next (allocs one_out two_out (40 ∷ []) 24 second_out)
        (next (frees two_out (24 ∷ []) [] 40) (done (free_in 40 two_out) in_use))))

pmalloc-Given_example :
    Given 2 8 0 (one_out ∷ []) (pmalloc true 2 8 (one_out ∷ []))
    ⊎ Refused true (one_out ∷ []) (pmalloc true 2 8 (one_out ∷ []))
pmalloc-Given_example = pmalloc-Given true 2 8 (one_out ∷ []) (refl, tt)
