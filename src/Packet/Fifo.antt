-- ===== src/Packet/Fifo.antt =====
-- The packet chain as a queue of packets.
pub mod Held
pub mod Fill
pub mod Drop
use librascal.Prelude.{
  ℕ, zero, suc, ◌+◌, ◌-◌, ◌≤◌, ◌<◌, ◌≡◌, ◌≢◌, refl, ap, ap₂, sym, subst, ◌∙◌, ◌⊎◌, inl, inr, min,
  Bool, true, false, Option, none, some, List, [], ◌∷◌, ◌++◌, length, take, drop, take_nil,
  drop_nil, append-nil, All, Bool-cases, Option-cases, ◌==◌, arith, All-append, All-append_left,
  All-append_right, get_elem?_last, set_last, take_last, length-take, length-append,
}
use librascal.Chain.{
  DataChain, Allocator, empty_chain, tail_item, mark_dead, trim, remove, peek_item,
}
use librascal.Chain.Item.{
  DataChainItem, IsItem, capacity, update, slice, live, new_item, length-slice, slice-take,
  slice-drop,
}
use librascal.Chain.Valid.{IsChain, empty_chain-IsChain, last_place, last_place-snoc, snoc_cases}
use librascal.Chain.Read.{
  HeadLive, mark_dead-Marked, last_place-length, drop_taken, remove-drop, tail-pop_head,
  live-exhausted,
}
use librascal.Packet.{write_at, copy_packet, append_packet, append, peek, extract}
use librascal.Packet.Fifo.Held.{packets, IsReady, HeadLive-IsReady}
use librascal.Packet.Fifo.Fill.{append-at, Pushed}
use librascal.Packet.Fifo.Drop.{pop, extract-at}

-- At a valid, ready chain and a block that is not empty, `append` comes to an end with no fault
-- and leaves a valid, ready chain. It returns true and holds one packet more at the end, the first
-- 2048 bytes of the block; or it returns false and holds the packets that it held, and then an
-- allocation failed.
pub append-Pushed :
    (new : Allocator) (c : DataChain) (b : ℕ) (bs : List ℕ)
    → IsChain c
    → IsReady c.items
    → Pushed new (packets c.items) (b ∷ bs) (append new c (b ∷ bs))
append-Pushed new c b bs v r = append-at new b bs c.items c.tail v.tail_last v.marks r

-- At a valid, ready chain `extract` gives the first `size` bytes of the oldest packet and never a
-- byte of the next; the rest of that packet, if there is any, stays the oldest, the other packets
-- stay as they were, and the chain stays valid and ready.
pub extract_refines :
    (c : DataChain) (size : ℕ)
    → IsChain c
    → IsReady c.items
    → (let (out, c') = extract c size in (out, packets c'.items) ≡ pop size (packets c.items))
      × IsChain (extract c size).1
      × IsReady (extract c size).1.items
extract_refines c size v r =
    let m = remove-drop c (length (peek c size)) v in
    (
      extract-at c.items c.tail size v.tail_last v.marks r,
      unfold extract in m.0,
      unfold extract in HeadLive-IsReady _ m.2,
    )
