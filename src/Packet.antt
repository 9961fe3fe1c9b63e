-- ===== src/Packet.antt =====
-- common/packetchain.cc: the chain that keeps its blocks apart, used for datagrams.
pub mod Fifo
use librascal.Prelude.{
  ℕ, zero, suc, ◌+◌, min, Bool, true, false, Option, none, some, List, [], ◌∷◌, length, set, take,
  ◌==◌, if◌then◌else◌,
}
use librascal.Chain.{DataChain, Allocator, empty_chain, link, unlink, tail_item, peek_item, remove}
use librascal.Chain.Item.{DataChainItem, capacity, update, new_item}

-- The bytes of `src` from `i` on.
unfoldable pub write_at : (ℕ → ℕ) → ℕ → List ℕ → ℕ → ℕ
write_at f i [] = f
write_at f i (b ∷ src) = write_at (update f i b) (suc i) src

-- `dst = tail->data + tail->used; lim = dst + sizeof(tail->data)` and the loop: the bytes that do
-- not fit are dropped.
unfoldable pub copy_packet : DataChainItem → List ℕ → DataChainItem
copy_packet it src =
    let part = take capacity src in
    record it { bytes = write_at it.bytes it.used part; used = it.used + length part }

-- The body of `if (size != 0)`; `none` is a fault at the tail pointer.
unfoldable pub append_packet : Allocator → ℕ → DataChain → List ℕ → Option (Bool × DataChain)
append_packet new n c src = elim (tail_item c) [
  | none ↦ none
  | some (t, it) ↦
      if it.used == 0
      then some (true, record c { items = set c.items t (copy_packet it src) })
      else elim (new n) [
        | none ↦ some (false, unlink c t)
        | some m ↦ some (true, link c t (copy_packet (new_item m) src))
      ]
]

-- `packetchain::append`
unfoldable pub append : Allocator → DataChain → List ℕ → Option (Bool × DataChain)
append new c src = elim c.items [
  | [] ↦ elim (new 0) [
    | none ↦ some (false, empty_chain)
    | some m ↦
        let c' : DataChain = record { items = new_item m ∷ []; tail = some 0 } in
        elim src [ [] ↦ some (true, c') | b ∷ bs ↦ append_packet new 1 c' (b ∷ bs) ]
  ]
  | it ∷ items ↦ elim src [ [] ↦ some (true, c) | b ∷ bs ↦ append_packet new 0 c (b ∷ bs) ]
]

-- `packetchain::peek`: the head item alone.
unfoldable pub peek : DataChain → ℕ → List ℕ
peek c size = elim c.items [ [] ↦ [] | it ∷ items ↦ (peek_item it size).0 ]

-- `packetchain::extract`
unfoldable pub extract : DataChain → ℕ → List ℕ × DataChain
extract c size = let out = peek c size in (out, remove c (length out))
