-- ===== src/Util/Pages.antt =====
-- common/util/memory.h and memory.cc: objects of one size in pages, `pageman` and `pagehead`.
pub mod First
pub mod Fresh
use librascal.Prelude.{
  ℕ, zero, suc, ◌+◌, ◌-◌, ◌*◌, ◌/◌, Bool, true, false, not, Option, none, some, List, [], ◌∷◌, ◌++◌,
  get_or, get_elem?, set, ◌==◌, if◌then◌else◌,
}

-- A page. `items` is the memory at the address that the page's place in the list stands for; only
-- the addresses of its elements matter.
pub record Page : Type 0 where
  pub itemsize : ℕ
  pub available : ℕ
  pub index : List ℕ

-- `sizeof(pagehead *)`
abbrev pub pointer : ℕ
pointer = 8

-- What `get_item(idx)` adds to `items`.
abbrev pub item_at : ℕ → ℕ → ℕ
item_at itemsize idx = (itemsize + pointer) * idx

-- `while (psz-- != 0) index[psz] = psz;`
unfoldable pub all_indexes : ℕ → List ℕ
all_indexes zero = []
all_indexes (suc n) = all_indexes n ++ n ∷ []

-- The constructor, once its arrays are there.
unfoldable pub new_page : ℕ → ℕ → Page
new_page psz isz = record { itemsize = isz; available = psz; index = all_indexes psz }

-- `pagehead::alloc`: the offset of the element's body in `items`, and the page.
unfoldable pub alloc : ℕ → Page → Option ℕ × Page
alloc isz p =
    let idx = get_or p.index (p.available - 1) 0 in
    let given : Option ℕ × Page =
      (some (item_at p.itemsize idx + pointer), record p { available = p.available - 1 }) in
    if not (isz == p.itemsize) then (none, p) else if p.available == 0 then (none, p) else given

-- An address: the page, and the offset in its `items`.
pub record Block : Type 0 where
  pub page : ℕ
  pub at : ℕ

abbrev pub block_in : ℕ → Option ℕ → Option Block
block_in k none = none
block_in k (some at) = some (record { page = k; at = at })

-- The loop of `pmalloc` from the page of number `k` on: the address, NULL as none, and the pages.
-- `memory` says whether the arrays of a new page can be had. A page with no elements would make it
-- go on without end, so `pagesize` is a number and one.
unfoldable pub malloc_from : Bool → ℕ → ℕ → ℕ → List Page → Option Block × List Page
malloc_from memory psz isz k [] =
    let (at, p) = alloc isz (new_page (suc psz) isz) in
    if memory then (block_in k at, p ∷ []) else (none, [])
malloc_from memory psz isz k (p ∷ ps) =
    let (at, p') = alloc isz p in
    let later = malloc_from memory psz isz (suc k) ps in
    if not (p.available == 0) then (block_in k at, p' ∷ ps) else (later.0, p ∷ later.1)

-- `pageman::pmalloc`
abbrev pub pmalloc : Bool → ℕ → ℕ → List Page → Option Block × List Page
pmalloc memory psz isz pages = malloc_from memory psz isz 0 pages

-- The index that `pmfree` computes of an element's body.
abbrev pub item_of : Page → ℕ → ℕ
item_of p at = (at - pointer) / (p.itemsize + pointer)

-- `item->head->index[item->head->available++] = idx`; an index behind the array is left out.
unfoldable pub free_in : ℕ → Page → Page
free_in at p = record p {
  index = set p.index p.available (item_of p at);
  available = p.available + 1;
}

-- `pageman::pmfree`, where the element's `head` is the page that it stands in.
unfoldable pub free_from : ℕ → ℕ → List Page → List Page
free_from k at [] = []
free_from zero at (p ∷ ps) = free_in at p ∷ ps
free_from (suc k) at (p ∷ ps) = p ∷ free_from k at ps

abbrev pub pmfree : Block → List Page → List Page
pmfree block pages = free_from block.page block.at pages
