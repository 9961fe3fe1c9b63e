-- ===== src/Srv/Places.antt =====
-- The list of addresses of a service in common/resolver/rascal_getsrv.cc: `on_getaddr`, `sort` and
-- `try_next_server`.
pub mod Order
pub mod Merge
pub mod Resolve
use librascal.Prelude.{
  ℕ, zero, suc, ◌+◌, ◌-◌, ◌%◌, ◌^◌, Bool, true, false, ◌&&◌, ◌||◌, Option, none, some, List, [],
  ◌∷◌, ◌++◌, length, map, ltb, ◌==◌, if◌then◌else◌,
}
use librascal.Srv.{Record, Place, same_text, rec_srv_unavail}

-- The loop that puts a new address in front of the first whose priority is not less.
unfoldable pub insert : Place → List Place → List Place
insert nu [] = nu ∷ []
insert nu (old ∷ rest) =
    let later = insert nu rest in
    if ltb old.priority nu.priority then old ∷ later else nu ∷ old ∷ rest

-- The new element for one address of a record.
abbrev pub place_of : Record → List ℕ → Place
place_of r addr = record { priority = r.priority; weight = r.weight; port = r.port; addr = addr }

-- `for (idx < addrc)`; an address for which there is no memory is left out, `memory` says which.
unfoldable pub insert_all : List (Place × Bool) → List Place → List Place
insert_all [] places = places
insert_all ((nu, true) ∷ rest) places = insert_all rest (insert nu places)
insert_all ((nu, false) ∷ rest) places = insert_all rest places

-- The record that an id stands for.
unfoldable pub find_record : ℕ → List Record → Option Record
find_record id [] = none
find_record id (r ∷ rs) = if r.id == id then some r else find_record id rs

-- The new elements for the addresses from index i on, each with whether there is memory for it.
abbrev pub offers : (ℕ → Bool) → Record → ℕ → List (List ℕ) → List (Place × Bool)
offers memory r i [] = []
offers memory r i (addr ∷ rest) = (place_of r addr, memory i) ∷ offers memory r (suc i) rest

-- The loop over the records: those with another host, last first, and the addresses. `base` is
-- deleted at its own turn, which `gone` says. `stale` is what `base->host` reads from then on, and
-- `memory` whether there is memory for an address: each at a number of records behind.
unfoldable pub apply_aliases :
    (ℕ → List ℕ)
    → (ℕ → ℕ → Bool)
    → Record
    → List (List ℕ)
    → Bool
    → List Record
    → List Record
    → List Place
    → List Record × List Place
apply_aliases stale memory base addrs gone [] head places = (head, places)
apply_aliases stale memory base addrs gone (r ∷ rs) head places =
    let host = if gone then stale (length rs) else base.host in
    if same_text r.host host
    then apply_aliases stale memory base addrs (gone || (r.id == base.id)) rs head
        (insert_all (offers (memory (length rs)) r 0 addrs) places)
    else apply_aliases stale memory base addrs gone rs (r ∷ head) places

-- `rnd += item->weight` over the elements of the first's priority.
unfoldable pub total_weight : ℕ → List Place → ℕ
total_weight priority [] = 0
total_weight priority (x ∷ xs) =
    let rest = total_weight priority xs in
    if x.priority == priority then (x.weight + rest) % 2 ^ 32 else 0

-- The search for the element that rnd falls on, among those of the priority: the element, and the
-- list without it.
unfoldable pub choose : ℕ → ℕ → List Place → Option (Place × List Place)
choose priority rnd [] = none
choose priority rnd (x ∷ xs) =
    let rest : Option (Place × List Place) = elim (choose priority (rnd - x.weight) xs) [
      | none ↦ none
      | some (y, ys) ↦ some (y, x ∷ ys)
    ] in
    if x.priority == priority
    then (if (rnd == 0) || ltb rnd x.weight then some (x, xs) else rest)
    else none

-- One round of `sort` at a list that is not empty; `random` is `faeutil_random`.
unfoldable pub next_place : (ℕ → ℕ) → Place → List Place → Place × List Place
next_place random head rest =
    let sum = total_weight head.priority (head ∷ rest) in
    let rnd = if sum == 0 then 0 else random (sum - 1) in
    elim (choose head.priority rnd (head ∷ rest)) [ some (x, xs) ↦ (x, xs) | none ↦ (head, rest) ]

-- `getsrv::sort`; `random` takes the number of rounds left too, since its answers differ from call
-- to call. A round takes one element, so the length is enough fuel.
unfoldable pub sort_loop : (ℕ → ℕ → ℕ) → ℕ → List Place → List Place
sort_loop random zero places = []
sort_loop random (suc fuel) [] = []
sort_loop random (suc fuel) (x ∷ xs) =
    let (y, ys) = next_place (random fuel) x xs in y ∷ sort_loop random fuel ys

unfoldable pub sort : (ℕ → ℕ → ℕ) → List Place → List Place
sort random places = sort_loop random (length places) places

-- How `try_next_server` ends: a connection to an address is on its way, or the dispatcher is told
-- REC_SRV_UNAVAIL and the request is cancelled.
pub data Attempt : Type 0 where
  connecting : Place → List Place → Attempt
  unavailable : ℕ → Attempt

-- `getsrv::try_next_server`: `filter` is the client's, true where there is none, and `connect` says
-- whether `rascal_connect` accepts an address.
unfoldable pub try_next_server : (Place → Bool) → (Place → Bool) → List Place → Attempt
try_next_server filter connect [] = unavailable rec_srv_unavail
try_next_server filter connect (active ∷ rest) =
    let next = try_next_server filter connect rest in
    if filter active && connect active then connecting active rest else next

-- The addresses behind the one tried: those before it are deleted.
abbrev pub left_by : Attempt → List Place
left_by (connecting active rest) = rest
left_by (unavailable rc) = []

-- `getsrv::on_getaddr`: the records and the addresses that it leaves, and what `try_next_server`
-- does if no record is left.
unfoldable pub on_getaddr :
    (ℕ → List ℕ)
    → (ℕ → ℕ → Bool)
    → (ℕ → ℕ → ℕ)
    → (Place → Bool)
    → (Place → Bool)
    → List (List ℕ)
    → ℕ
    → List Record
    → List Place
    → List Record × List Place × Option Attempt
on_getaddr stale memory random filter connect addrs id records places =
    elim (find_record id records) [
      | none ↦ (records, places, none)
      | some base ↦
          let (head, places') = apply_aliases stale memory base addrs false records [] places in
          elim head [
            | [] ↦
                let tried = try_next_server filter connect (sort random places') in
                ([], left_by tried, some tried)
            | r ∷ rs ↦ (r ∷ rs, places', none)
          ]
    ]

-- What `try_next_server_disp` does with an event: `pick` is the request's list of addresses, none
-- if there is no such request.
pub data Dispatch : Type 0 where
  rejected : (cancels : Bool) → Dispatch
  redispatched : Dispatch
  next : Attempt → Dispatch

unfoldable pub try_next_server_disp :
    (Place → Bool) → (Place → Bool) → Option (List Place) → Bool → Bool → Dispatch
try_next_server_disp filter connect none ok connected = rejected false
try_next_server_disp filter connect (some places) ok connected =
    if connected
    then (if ok then redispatched else next (try_next_server filter connect places))
    else rejected ok
