-- ===== src/Tests/Packet.antt =====
-- Runs of `packetchain` at small inputs, and its theorems there.
use librascal.Prelude.{◌≡◌, refl, none, some, [], ◌∷◌, arith, get_or}
use librascal.Chain.{DataChain, Allocator}
use librascal.Chain.Valid.{IsChain}
use librascal.Packet.{append, extract}
use librascal.Packet.Fifo.{append-Pushed, extract_refines}
use librascal.Packet.Fifo.Held.{IsReady, packets}
use librascal.Packet.Fifo.Fill.{Pushed}
use librascal.Packet.Fifo.Drop.{pop}

abbrev none_left : Allocator
none_left n = none

-- Two datagrams.
abbrev two : DataChain
two = record {
  items =
      record { used = 3; dead = 0; bytes = λ i. get_or (1 ∷ 2 ∷ 3 ∷ []) i 0 }
      ∷ record { used = 1; dead = 0; bytes = λ i. get_or (4 ∷ []) i 0 }
      ∷ [];
  tail = some 1;
}

two-IsChain : IsChain two
two-IsChain = record { tail_last = refl; marks = (omega arith, (omega arith, tt)) }

append-Pushed_example :
    Pushed none_left (packets two.items) (9 ∷ []) (append none_left two (9 ∷ []))
append-Pushed_example = append-Pushed none_left two 9 [] two-IsChain (omega arith)

extract_refines_example :
    (let (out, c') = extract two 2 in (out, packets c'.items) ≡ pop 2 (packets two.items))
    × IsChain (extract two 2).1
    × IsReady (extract two 2).1.items
extract_refines_example = extract_refines two 2 two-IsChain (omega arith)
