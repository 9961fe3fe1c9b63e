-- ===== src/Packet/Fifo/Drop.antt =====
-- What `packetchain::extract` does to the packets held.
use librascal.Prelude.{
  ℕ, ◌+◌, ◌-◌, ◌≤◌, ◌<◌, ◌≡◌, ◌≢◌, refl, ap, ap₂, sym, ◌∙◌, ◌⊎◌, inl, inr, min, Option, List, [],
  ◌∷◌, length, take, drop, take_nil, drop_nil, All, Bool-cases, ◌==◌, arith,
}
use librascal.Chain.{mark_dead, trim, remove, peek_item}
use librascal.Chain.Item.{DataChainItem, IsItem, slice, live, length-slice, slice-take, slice-drop}
use librascal.Chain.Valid.{last_place}
use librascal.Chain.Read.{mark_dead-Marked, last_place-length, drop_taken, live-exhausted}
use librascal.Packet.{peek, extract}
use librascal.Packet.Fifo.Held.{cons_packet, packets, IsReady, trim-packets}

-- A queue of packets gives the first `size` bytes of the oldest, and keeps what is left of it.
unfoldable pub pop : ℕ → List (List ℕ) → List ℕ × List (List ℕ)
pop size [] = ([], [])
pop size (p ∷ ps) = (take size p, cons_packet (drop size p) ps)

mark_dead-zero : (items : List DataChainItem) → mark_dead items 0 ≡ items
unfolding mark_dead
mark_dead-zero [] = refl
mark_dead-zero (it ∷ items) = refl

-- Taking bytes off the head item alone.
mark_dead-head :
    (it : DataChainItem) (items : List DataChainItem) (n : ℕ)
    → IsItem it
    → n ≤ it.used - it.dead
    → packets (mark_dead (it ∷ items) n) ≡ cons_packet (drop n (live it)) (packets items)
unfolding mark_dead
mark_dead-head it items n v h = elim (Bool-cases (n == 0)) [
  | inl z ↦ let e : n ≡ 0 = ground arith in rw (e, mark_dead)
  | inr z ↦
      let k = it.used - it.dead in
      let m : min n k ≡ n = omega arith in
      let d : n - min n k ≡ 0 = omega arith in
      let u : it.used - (it.dead + min n k) ≡ k - min n k = omega arith in
      rw z (
        ap₂ cons_packet
          (ap (slice it.bytes (it.dead + min n k)) u ∙ slice-drop it.bytes it.dead k n)
          (ap packets (ap (mark_dead items) d ∙ mark_dead-zero items)))
]

cons_packet-pop :
    (size : ℕ) (p : List ℕ) (ps : List (List ℕ))
    → p ≢ []
    → pop size (cons_packet p ps) ≡ (take size p, cons_packet (drop size p) ps)
unfolding pop cons_packet
cons_packet-pop size [] ps h = absurd (h refl)
cons_packet-pop size (b ∷ p) ps h = refl

remove-packets :
    (items : List DataChainItem) (tail : Option ℕ) (n : ℕ)
    → tail ≡ last_place items
    → All IsItem items
    → packets (remove (record { items = items; tail = tail }) n).items ≡ packets (mark_dead items n)
unfolding remove
remove-packets items tail n e v =
    let m = mark_dead-Marked items n v in
    let t : tail ≡ last_place (mark_dead items n) =
      e ∙ last_place-length items (mark_dead items n) (sym m.count) in
    rw t (trim-packets (mark_dead items n))

ready_cases :
    (it : DataChainItem) (items : List DataChainItem)
    → IsReady (it ∷ items)
    → (it.dead < it.used) ⊎ ((items ≡ []) × (it.used ≡ 0))
ready_cases it [] (inl h) = inl h
ready_cases it [] (inr h) = inr (refl, h)
ready_cases it (x ∷ items) h = inl h

pub extract-at :
    (items : List DataChainItem) (tail : Option ℕ) (size : ℕ)
    → tail ≡ last_place items
    → All IsItem items
    → IsReady items
    → (let (out, c') = extract (record { items = items; tail = tail }) size in
        (out, packets c'.items) ≡ pop size (packets items))
extract-at [] tail size e v r = unfold extract peek remove mark_dead trim pop in refl
extract-at (it ∷ items) tail size e v r =
    let n = it.used - it.dead in
    let out = (peek_item it size).0 in
    let l = length-slice it.bytes it.dead (min n size) in
    let o : out ≡ take size (live it) = slice-take it.bytes it.dead n size in
    let d : packets (remove (record { items = it ∷ items; tail = tail }) (length out)).items
        ≡ cons_packet (drop size (live it)) (packets items) =
      remove-packets (it ∷ items) tail (length out) e v
      ∙ mark_dead-head it items (length out) v.0 (omega (arith, l))
      ∙ ap (λ xs. cons_packet xs (packets items))
          (ap (λ xs. drop (length xs) (live it)) o ∙ drop_taken size (live it)) in
    unfold extract peek in
    (ap₂ (λ (a : List ℕ) (b : List (List ℕ)). (a, b)) o d
      ∙ sym (elim (ready_cases it items r) [
        | inl h ↦
            cons_packet-pop size (live it) (packets items)
              (λ z. absurd (omega (arith, ap length z, length-slice it.bytes it.dead n)))
        | inr (z, u) ↦
            let x : live it ≡ [] = live-exhausted it (omega (arith, v.0.dead_in)) in
            rw (z, x) (unfold cons_packet pop in rw (take_nil size, drop_nil size))
      ]))
