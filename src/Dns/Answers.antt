-- ===== src/Dns/Answers.antt =====
-- `header::get_addrs` and `header::get_hosts` of common/resolver/header.cc.
pub mod Safe
use librascal.Prelude.{
  ℕ, zero, suc, ◌+◌, ◌-◌, Bool, true, false, ◌&&◌, ◌||◌, not, Option, none, some, List, [], ◌∷◌,
  ◌++◌, ltb, ◌==◌, if◌then◌else◌,
}
use librascal.Dns.Cursor.{Cursor, Memory, advance, get_u16, get_u32}
use librascal.Dns.Header.{Header}
use librascal.Dns.Name.{skip_name, skip_echo, get_name}
use librascal.Chain.Item.{slice}

-- `TYPE_A`, `TYPE_PTR` and `CLASS_IN`
abbrev pub type_a : ℕ
type_a = 1

abbrev pub type_ptr : ℕ
type_ptr = 12

abbrev pub class_in : ℕ
class_in = 1

infixl 5 ◌>>=◌
abbrev pub ◌>>=◌ {ℓ κ} : {A : Type ℓ} {B : Type κ} → Option A → (A → Option B) → Option B
none >>= f = none
some a >>= f = f a

-- What stands before the data of a resource record.
pub record Answer : Type 0 where
  pub type : ℕ
  pub class : ℕ
  pub length : ℕ

abbrev pub or_break : Bool × Cursor → Option Cursor
or_break (false, c) = none
or_break (true, c) = some c

-- A record's name and fields, with the test that its data lies in the packet; `none` is a `break`.
unfoldable pub read_answer : Memory → Cursor → Option (Answer × Cursor)
read_answer m c = do
  c₁ ← or_break (skip_name m c)
  (type, c₂) ← get_u16 m c₁
  (class, c₃) ← get_u16 m c₂
  (ttl, c₄) ← get_u32 m c₃
  (length, c₅) ← get_u16 m c₄
  (if ltb c₅.size length
      then none
      else some (record { type = type; class = class; length = length }, c₅))

abbrev pub is_address : Answer → ℕ → Bool
is_address a room = (a.type == type_a) && (a.class == class_in) && (a.length == 4) && ltb 0 room

-- The loop of `get_addrs` over the answers left, with the room left in `addrv`.
unfoldable pub address_loop : Memory → ℕ → Cursor → ℕ → List (List ℕ)
address_loop m zero c room = []
address_loop m (suc answers) c room = elim (read_answer m c) [
  | none ↦ []
  | some (a, c') ↦
      let hit = is_address a room in
      let rest = address_loop m answers (advance a.length c') (if hit then room - 1 else room) in
      if hit then slice m c'.pos 4 ∷ rest else rest
]

-- `header::get_addrs`: the addresses stored in `addrv`, whose number it returns.
unfoldable pub get_addrs : Memory → Header → Cursor → ℕ → List (List ℕ)
get_addrs m h c addrc =
    let (found, q, c') = skip_echo m h.qdcount c in
    let loop = address_loop m h.ancount c' addrc in
    if (h.ancount == 0) || not (h.rcode == 0) then [] else if found then loop else []

-- `get_hosts` writes `hostv[idx]` where `idx` counts the answers, and counts the names apart: the
-- places written with the names, oldest first, and the number returned. The next answer is read
-- from `osrc + _length` on, where `osrc` is where this one began.
unfoldable pub host_loop :
    Memory → ℕ → ℕ → ℕ → Cursor → ℕ → ℕ → List (ℕ × List ℕ) → Option (ℕ × List (ℕ × List ℕ))
host_loop m fuel zero idx c hostc count written = some (count, written)
host_loop m fuel (suc answers) idx c hostc count written = elim (read_answer m c) [
  | none ↦ some (count, written)
  | some (a, c') ↦
      let next : Cursor = advance a.length c in
      elim ((a.type == type_ptr) && (a.class == class_in) && ltb count hostc) [
        | false ↦ host_loop m fuel answers (idx + 1) next hostc count written
        | true ↦ elim (get_name m fuel c' 256) [
          | none ↦ none
          | some (false, text, e) ↦ some (count, written)
          | some (true, text, e) ↦
              host_loop m fuel answers (idx + 1) next hostc (count + 1)
                (written ++ (idx, text) ∷ [])
        ]
      ]
]

-- `header::get_hosts`: the number that it returns and what it writes to `hostv`.
unfoldable pub get_hosts : Memory → ℕ → Header → Cursor → ℕ → Option (ℕ × List (ℕ × List ℕ))
get_hosts m fuel h c hostc =
    let (found, q, c') = skip_echo m h.qdcount c in
    let loop = host_loop m fuel h.ancount 0 c' hostc 0 [] in
    if (h.ancount == 0) || not (h.rcode == 0)
    then some (0, [])
    else if found
    then loop
    else some (0, [])
