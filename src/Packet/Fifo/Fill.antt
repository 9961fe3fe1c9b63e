-- ===== src/Packet/Fifo/Fill.antt =====
-- What `packetchain::append` does to the packets held.
use librascal.Prelude.{
  ℕ, zero, suc, ◌+◌, ◌-◌, ◌<◌, ◌≡◌, ◌≢◌, refl, ap, sym, subst, ◌∙◌, ◌⊎◌, inl, inr, Bool, true,
  false, Option, none, some, List, [], ◌∷◌, ◌++◌, length, take, append-nil, All, Bool-cases,
  Option-cases, ◌==◌, arith, All-append, All-append_left, All-append_right, get_elem?_last,
  set_last, take_last, length-take,
}
use librascal.Chain.{DataChain, Allocator, empty_chain, tail_item}
use librascal.Chain.Item.{DataChainItem, IsItem, capacity, slice, live, new_item}
use librascal.Chain.Valid.{IsChain, empty_chain-IsChain, last_place, last_place-snoc, snoc_cases}
use librascal.Chain.Read.{live-exhausted}
use librascal.Chain.Append.Last.{chain, chain-IsChain, length-snoc, new_item-IsItem}
use librascal.Packet.{write_at, copy_packet, append_packet, append}
use librascal.Packet.Fifo.Held.{
  cons_packet, packets, IsReady, packets-append, slice-write_at, IsReady-fill, IsReady-link,
}

-- An item with room for a packet, filled with one.
record Filled (src : List ℕ) (it : DataChainItem) : Type 0 where
  sound : IsItem it
  alive : it.dead < it.used
  bytes : live it ≡ take capacity src

copy_packet-Filled :
    (it : DataChainItem) (b : ℕ) (bs : List ℕ)
    → IsItem it
    → it.used ≡ 0
    → Filled (b ∷ bs) (copy_packet it (b ∷ bs))
unfolding copy_packet
copy_packet-Filled it b bs v e =
    let part = take capacity (b ∷ bs) in
    let l = length-take capacity (b ∷ bs) in
    let d : it.dead ≡ 0 = omega (arith, v.dead_in) in
    let n : it.used + length part - it.dead ≡ length part = omega arith in
    let u : it.used ≡ it.dead = omega arith in
    record {
      sound = omega (arith, l);
      alive = omega (arith, l);
      bytes =
          ap (slice (write_at it.bytes it.used part) it.dead) n
          ∙ ap (λ i. slice (write_at it.bytes i part) it.dead (length part)) u
          ∙ slice-write_at it.bytes it.dead part;
    }

-- What `append` does to the packets `old` at the bytes `src`.
pub record Pushed (new : Allocator) (old : List (List ℕ)) (src : List ℕ)
    (res : Option (Bool × DataChain)) : Type 0 where
  pub done : Bool
  pub after : DataChain
  pub returns : res ≡ some (done, after)
  pub valid : IsChain after
  pub ready : IsReady after.items
  pub outcome :
      ((done ≡ true) × (packets after.items ≡ old ++ take capacity src ∷ []))
      ⊎ ((done ≡ false) × (packets after.items ≡ old) × ((n : ℕ) × (new n ≡ none)))

take-ne-nil : (n b : ℕ) (bs : List ℕ) → 0 < n → take n (b ∷ bs) ≢ []
take-ne-nil zero b bs h = absurd (omega arith)
take-ne-nil (suc n) b bs h = λ e. cc

packets-snoc :
    (pre : List DataChainItem) (src : List ℕ) (it : DataChainItem)
    → Filled src it
    → take capacity src ≢ []
    → packets (pre ++ it ∷ []) ≡ packets pre ++ take capacity src ∷ []
unfolding cons_packet
packets-snoc pre src it f h =
    packets-append pre (it ∷ [])
    ∙ ap (λ p. packets pre ++ cons_packet p []) (f.bytes)
    ∙ go (take capacity src) h
  where
    go : (p : List ℕ) → p ≢ [] → packets pre ++ cons_packet p [] ≡ packets pre ++ p ∷ []
    go [] h = absurd (h refl)
    go (b ∷ p) h = refl

packets-snoc_empty :
    (pre : List DataChainItem) (it : DataChainItem)
    → IsItem it
    → it.used ≡ 0
    → packets (pre ++ it ∷ []) ≡ packets pre
unfolding cons_packet
packets-snoc_empty pre it v e =
    packets-append pre (it ∷ [])
    ∙ ap (λ p. packets pre ++ cons_packet p []) (live-exhausted it (omega (arith, v.dead_in)))
    ∙ append-nil (packets pre)

append_packet-Pushed :
    (new : Allocator) (n : ℕ) (pre : List DataChainItem) (it : DataChainItem) (b : ℕ) (bs : List ℕ)
    → All IsItem pre
    → IsItem it
    → IsReady (pre ++ it ∷ [])
    → Pushed new (packets (pre ++ it ∷ [])) (b ∷ bs) (append_packet new n (chain pre it) (b ∷ bs))
unfolding append_packet
append_packet-Pushed new n pre it b bs p v r = elim (Bool-cases (it.used == 0)) [
  | inl z ↦
      let e : it.used ≡ 0 = ground arith in
      let f = copy_packet-Filled it b bs v e in
      let it' = copy_packet it (b ∷ bs) in
      rw (get_elem?_last pre it, append_packet, tail_item, z)
        (rw (set_last pre it it') (record {
          done = true;
          after = chain pre it';
          returns = refl;
          valid = chain-IsChain pre it' p f.sound;
          ready = IsReady-fill pre it it' r f.alive;
          outcome = inl (
            refl,
            packets-snoc pre (b ∷ bs) it' f (take-ne-nil capacity b bs (omega arith))
                ∙ ap (λ ps. ps ++ take capacity (b ∷ bs) ∷ [])
                    (sym (packets-snoc_empty pre it v e)),
          );
        }))
  | inr z ↦
      let e : it.used ≢ 0 = ground arith in
      rw (get_elem?_last pre it, append_packet, tail_item, z)
        (elim (Option-cases (new n)) [
          | inl g ↦ rw g (
              rw (take_last pre it) (record {
                done = false;
                after = chain pre it;
                returns = refl;
                valid = chain-IsChain pre it p v;
                ready = r;
                outcome = inr (refl, refl, (n, g));
              }))
          | inr (m, g) ↦
              let f = copy_packet-Filled (new_item m) b bs (new_item-IsItem m) refl in
              let it' = copy_packet (new_item m) (b ∷ bs) in
              let q : All IsItem (pre ++ it ∷ []) = All-append IsItem pre (it ∷ []) p (v, tt) in
              rw g (
                rw (take_last pre it, ← length-snoc pre it)
                  (record {
                    done = true;
                    after = chain (pre ++ it ∷ []) it';
                    returns = refl;
                    valid = chain-IsChain (pre ++ it ∷ []) it' q f.sound;
                    ready = IsReady-link pre it it' r e;
                    outcome = inl (
                      refl,
                      packets-snoc (pre ++ it ∷ []) (b ∷ bs) it' f
                          (take-ne-nil capacity b bs (omega arith)),
                    );
                  }))
        ])
]

pub append-at :
    (new : Allocator) (b : ℕ) (bs : List ℕ) (items : List DataChainItem) (tail : Option ℕ)
    → tail ≡ last_place items
    → All IsItem items
    → IsReady items
    → Pushed new
        (packets items)
        (b ∷ bs)
        (append new (record { items = items; tail = tail }) (b ∷ bs))
unfolding append
append-at new b bs [] tail e p r = elim (Option-cases (new 0)) [
  | inl z ↦
      rw (z, append)
        (record {
          done = false;
          after = empty_chain;
          returns = refl;
          valid = empty_chain-IsChain;
          ready = tt;
          outcome = inr (refl, refl, (0, z));
        })
  | inr (m, z) ↦
      let v = new_item-IsItem m in
      rw (z, append)
        (subst (λ ps. Pushed new ps (b ∷ bs) (append_packet new 1 (chain [] (new_item m)) (b ∷ bs)))
          (packets-snoc_empty [] (new_item m) v refl)
          (append_packet-Pushed new 1 [] (new_item m) b bs tt v (inr refl)))
]
append-at new b bs (it ∷ items) tail e p r =
    let (pre, last, q) = snoc_cases it items in
    let w : All IsItem (pre ++ last ∷ []) = subst (All IsItem) q p in
    let t : tail ≡ some (length pre) = e ∙ ap last_place q ∙ last_place-snoc pre last in
    rw t (
      subst
        (λ xs.
          Pushed new (packets xs) (b ∷ bs)
            (append_packet new 0 (record { items = xs; tail = some (length pre) }) (b ∷ bs)))
        (sym q)
        (append_packet-Pushed new 0 pre last b bs (All-append_left IsItem pre (last ∷ []) w)
          ((All-append_right IsItem pre (last ∷ []) w).0) (subst IsReady q r)))
