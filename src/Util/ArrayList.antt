-- ===== src/Util/ArrayList.antt =====
-- common/util/list.h: the array list, list_ut.
pub mod Count
use librascal.Prelude.{
  ℕ, suc, ◌+◌, ◌-◌, ◌/◌, Bool, true, false, ◌||◌, Option, none, some, List, [], ◌∷◌, ◌++◌, length,
  get_elem?, set, take, drop, ltb, ◌==◌, if◌then◌else◌,
}

-- `data` up to `used`, and `allocated`; the elements are numbers, as those of the pointers and ids
-- that the program keeps in such lists.
pub record ArrayList : Type 0 where
  pub items : List ℕ
  pub allocated : ℕ

abbrev pub empty_list : ArrayList
empty_list = record { items = []; allocated = 0 }

-- `page`
abbrev pub page_of : ℕ → ℕ
page_of allocated = if ltb (allocated / 4) 4 then 4 else allocated / 4

-- `push_back`; `grown` says whether the array could grow.
unfoldable pub push_back : Bool → ArrayList → ℕ → Bool × ArrayList
push_back grown l obj =
    let page = page_of l.allocated in
    if length l.items == l.allocated
    then (if grown
        then (true, record { items = l.items ++ obj ∷ []; allocated = l.allocated + page })
        else (false, l))
    else (true, record l { items = l.items ++ obj ∷ [] })

unfoldable pub holds : ℕ → List ℕ → Bool
holds obj [] = false
holds obj (x ∷ xs) = (x == obj) || holds obj xs

-- `add`
unfoldable pub add : Bool → ArrayList → ℕ → Bool × ArrayList
add grown l obj = if holds obj l.items then (false, l) else push_back grown l obj

-- `get`: the element, or none where it returns false.
unfoldable pub get : ArrayList → ℕ → Option ℕ
get l idx = get_elem? l.items idx

-- `pop_back`: the element, or none where it returns false, and the list.
unfoldable pub pop_back : ArrayList → Option ℕ × ArrayList
pop_back l = if length l.items == 0 then (none, l) else (
  get_elem? l.items (length l.items - 1),
  record l { items = take (length l.items - 1) l.items },
)

-- `remove_at`, with the array's elements behind idx moved down by one.
unfoldable pub remove_at : ArrayList → ℕ → Bool × ArrayList
remove_at l idx =
    if ltb idx (length l.items)
    then (true, record l { items = take idx l.items ++ drop (suc idx) l.items })
    else (false, l)

-- `pop_front`
unfoldable pub pop_front : ArrayList → Option ℕ × ArrayList
pop_front l = elim (get l 0) [ none ↦ (none, l) | some obj ↦ (some obj, (remove_at l 0).1) ]

-- The index at which the loop of `remove` stops.
unfoldable pub index_of : ℕ → List ℕ → Option ℕ
index_of obj [] = none
index_of obj (x ∷ xs) =
    let rest : Option ℕ = elim (index_of obj xs) [ none ↦ none | some i ↦ some (suc i) ] in
    if x == obj then some 0 else rest

-- `remove`: the last element takes the place of the one removed.
unfoldable pub remove : ArrayList → ℕ → Bool × ArrayList
remove l obj = elim (index_of obj l.items) [
  | none ↦ (false, l)
  | some i ↦ elim (get_elem? l.items (length l.items - 1)) [
    | none ↦ (false, l)
    | some last ↦ (true, record l { items = take (length l.items - 1) (set l.items i last) })
  ]
]

-- `operator =`; `allocated` says whether there was memory for the copy.
unfoldable pub assign : Bool → ArrayList → ArrayList
assign allocated src =
    if length src.items == 0 then empty_list else (if allocated then src else empty_list)
