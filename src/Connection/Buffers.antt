-- ===== src/Connection/Buffers.antt =====
-- The two kinds of buffer have what the handlers rely on.
use librascal.Prelude.{
  ℕ, refl, sym, subst, Bool, true, false, Option, none, some, List, [], ◌∷◌, inr, arith,
}
use librascal.Chain.{DataChain, Allocator, remove, empty_chain}
use librascal.Chain.Item.{DataChainItem, new_item}
use librascal.Chain.Valid.{IsChain, empty_chain-IsChain}
use librascal.Chain.Append.{append-Appended}
use librascal.Chain.Read.{remove-drop}
use librascal.Packet as Packet
use librascal.Packet.Fifo.{append-Pushed}
use librascal.Packet.Fifo.Held.{IsReady, HeadLive-IsReady}
use librascal.Connection.{stream_buffer}
use librascal.Connection.Valid.{Ends, IsBuffer}
use librascal.Connection.Datagram.{packet_buffer}

pub stream-IsBuffer : IsBuffer stream_buffer IsChain
stream-IsBuffer = record {
  appends = λ new c src v.
      let a = append-Appended new c src v in
      subst (Ends (λ (r : Bool × DataChain). IsChain r.1)) (sym a.returns) a.valid;
  removes = λ c size v. (remove-drop c size v).0;
}

-- A valid packet chain whose head packet can be read.
abbrev pub IsPackets : DataChain → Type 0
IsPackets c = IsChain c × IsReady c.items

empty_append :
    (new : Allocator) (items : List DataChainItem) (tail : Option ℕ)
    → IsPackets (record { items = items; tail = tail })
    → Ends
        (λ (r : Bool × DataChain). IsPackets r.1)
        (Packet.append new (record { items = items; tail = tail }) [])
unfolding Packet.append
empty_append new [] tail v = made (new 0)
  where
    made :
        (m : Option (ℕ → ℕ))
        → Ends
            (λ (r : Bool × DataChain). IsPackets r.1)
            (elim m [
              | none ↦ some (false, empty_chain)
              | some f ↦ some (true, record { items = new_item f ∷ []; tail = some 0 })
            ])
    made none = (empty_chain-IsChain, tt)
    made (some f) = (record { tail_last = refl; marks = (omega arith, tt) }, inr refl)
empty_append new (it ∷ items) tail v = v

packet_append :
    (new : Allocator) (c : DataChain) (src : List ℕ)
    → IsPackets c
    → Ends (λ (r : Bool × DataChain). IsPackets r.1) (Packet.append new c src)
packet_append new c [] v = empty_append new c.items c.tail v
packet_append new c (x ∷ xs) v =
    let a = append-Pushed new c x xs v.0 v.1 in
    subst (Ends (λ (r : Bool × DataChain). IsPackets r.1)) (sym a.returns) (a.valid, a.ready)

pub packet-IsBuffer : IsBuffer packet_buffer IsPackets
packet-IsBuffer = record {
  appends = packet_append;
  removes = λ c size v.
      let r = remove-drop c size v.0 in (r.0, HeadLive-IsReady (remove c size).items r.2);
}
