-- ===== src/Chain.antt =====
-- common/datachain.h, common/datachain.cc and common/datachainitem.cc: the chained byte buffer.
pub mod Item
pub mod Valid
pub mod Append
pub mod Read
pub mod Line
use librascal.Prelude.{
  ℕ, zero, suc, ◌+◌, ◌-◌, ◌%◌, ◌^◌, min, Bool, true, false, ◌&&◌, not, Option, none, some, List, [],
  ◌∷◌, ◌++◌, length, get_elem?, set, take, drop, ltb, ◌==◌, if◌then◌else◌,
}
use Item.{DataChainItem, capacity, update, slice, new_item}

-- `head` and the `next` links are the list; `tail` is the place in it that `tail` points to.
pub record DataChain : Type 0 where
  pub items : List DataChainItem
  pub tail : Option ℕ

-- What the n-th `new datachainitem` of a call gives: NULL, or the bytes found in its memory.
abbrev pub Allocator : Type 0
Allocator = ℕ → Option (ℕ → ℕ)

abbrev pub empty_chain : DataChain
empty_chain = record { items = []; tail = none }

-- `while (size != 0 && dst != lim) { *dst++ = *src++; --size; }` and `tail->used = dst - tail->data`
unfoldable pub copy_in : DataChainItem → List ℕ → DataChainItem × List ℕ
copy_in it [] = (it, [])
copy_in it (b ∷ src) =
    let rest = copy_in (record it { bytes = update it.bytes it.used b; used = it.used + 1 }) src in
    if it.used == capacity then (it, b ∷ src) else rest

-- `tail->next = new datachainitem; tail = tail->next;`, at NULL nothing but the link is written
abbrev pub link : DataChain → ℕ → DataChainItem → DataChain
link c t it = record { items = take (suc t) c.items ++ it ∷ []; tail = some (suc t) }

abbrev pub unlink : DataChain → ℕ → DataChain
unlink c t = record c { items = take (suc t) c.items }

-- The place and the item that `tail` points to; `none` is a NULL or a stray pointer.
abbrev pub tail_item : DataChain → Option (ℕ × DataChainItem)
tail_item c = elim c.tail [
  | none ↦ none
  | some t ↦ elim (get_elem? c.items t) [ none ↦ none | some it ↦ some (t, it) ]
]

-- `if (tail->used == sizeof(tail->data)) …`: the chain, its tail and the number of allocations.
unfoldable pub make_room :
    Allocator → ℕ → DataChain → ℕ → DataChainItem → Option (DataChain × ℕ × DataChainItem × ℕ)
make_room new n c t it =
    if it.used == capacity
    then elim (new n) [
      | none ↦ none
      | some m ↦ some (link c t (new_item m), suc t, new_item m, suc n)
    ]
    else some (c, t, it, n)

-- The rounds of `while (size != 0)`; `none` is a fault at the tail pointer, or no fuel.
unfoldable pub append_loop : Allocator → ℕ → ℕ → DataChain → List ℕ → Option (Bool × DataChain)
append_loop new zero n c src = none
append_loop new (suc fuel) n c [] = some (true, c)
append_loop new (suc fuel) n c (b ∷ src) = elim (tail_item c) [
  | none ↦ none
  | some (t, it) ↦ elim (make_room new n c t it) [
    | none ↦ some (false, unlink c t)
    | some (c', t', it', n') ↦
        append_loop new fuel n' (record c' { items = set c'.items t' (copy_in it' (b ∷ src)).0 })
          (copy_in it' (b ∷ src)).1
  ]
]

-- `datachain::append`. A round copies a byte at least, so a round more than bytes is enough fuel.
unfoldable pub append : Allocator → DataChain → List ℕ → Option (Bool × DataChain)
append new c src = elim c.items [
  | [] ↦ elim (new 0) [
    | none ↦ some (false, empty_chain)
    | some m ↦
        append_loop new (suc (length src)) 1 (record { items = new_item m ∷ []; tail = some 0 }) src
  ]
  | it ∷ items ↦ append_loop new (suc (length src)) 0 c src
]

-- The inner loop of `peek` at one item: what it copies and the size that is left.
abbrev pub peek_item : DataChainItem → ℕ → List ℕ × ℕ
peek_item it size = let n = min (it.used - it.dead) size in (slice it.bytes it.dead n, size - n)

unfoldable pub peek_items : List DataChainItem → ℕ → List ℕ
peek_items [] size = []
peek_items (it ∷ items) size = (peek_item it size).0 ++ peek_items items (peek_item it size).1

-- `datachain::peek`: what it writes to `dst`; `size` becomes its length.
unfoldable pub peek : DataChain → ℕ → List ℕ
peek c size = peek_items c.items size

-- Phase one of `remove`: mark bytes dead.
unfoldable pub mark_dead : List DataChainItem → ℕ → List DataChainItem
mark_dead [] size = []
mark_dead (it ∷ items) size =
    let sub = min size (it.used - it.dead) in
    let rest = mark_dead items (size - sub) in
    if size == 0 then it ∷ items else record it { dead = it.dead + sub } ∷ rest

-- Phase two of `remove`: delete the items at the head that have no byte left. The pointer `tail`
-- becomes NULL with the item that it points to.
abbrev pub pop_head : DataChain → List DataChainItem → DataChain
pop_head c rest = record {
  items = rest;
  tail = elim c.tail [ none ↦ none | some t ↦ elim t [ zero ↦ none | suc t' ↦ some t' ] ];
}

unfoldable pub trim : List DataChainItem → Option ℕ → DataChain
trim [] tail = record { items = []; tail = tail }
trim (it ∷ items) tail =
    let rest = trim items (pop_head (record { items = it ∷ items; tail = tail }) items).tail in
    if it.used == it.dead then rest else record { items = it ∷ items; tail = tail }

-- `datachain::remove`
unfoldable pub remove : DataChain → ℕ → DataChain
remove c size = trim (mark_dead c.items size) c.tail

-- `datachain::extract`
unfoldable pub extract : DataChain → ℕ → List ℕ × DataChain
extract c size = let out = peek c size in (out, remove c (length out))

-- `datachain::get_size`, an unsigned sum
unfoldable pub size_from : ℕ → List DataChainItem → ℕ
size_from count [] = count
size_from count (it ∷ items) = size_from ((count + (it.used - it.dead)) % 2 ^ 32) items

unfoldable pub get_size : DataChain → ℕ
get_size c = size_from 0 c.items

-- `datachain::has_data`
unfoldable pub has_data_in : List DataChainItem → Bool
has_data_in [] = false
has_data_in (it ∷ items) = if not (it.used == it.dead) then true else has_data_in items

unfoldable pub has_data : DataChain → Bool
has_data c = has_data_in c.items
