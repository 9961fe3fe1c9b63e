-- ===== src/Chain/Append.antt =====
-- `append` puts the bytes behind those that the chain holds.
pub mod Filling
pub mod Last
use librascal.Prelude.{
  ℕ, zero, suc, ◌+◌, ◌-◌, ◌≤◌, ◌<◌, ◌≡◌, refl, ap, ap₂, sym, subst, ◌∙◌, ◌⊎◌, inl, inr, Bool, true,
  false, Option, none, some, List, [], ◌∷◌, ◌++◌, length, All, All-append, All-append_left,
  All-append_right, get_elem?_last, set_last, take_last, length-append, Bool-cases, Option-cases,
  append_assoc, append-nil, arith, ◌==◌,
}
use librascal.Chain.{
  DataChain, Allocator, empty_chain, copy_in, tail_item, make_room, append_loop, append,
}
use librascal.Chain.Item.{
  DataChainItem, IsItem, capacity, update, slice, live, new_item, slice-snoc, slice-update,
}
use librascal.Chain.Valid.{
  empty_chain-IsChain, IsChain, live_bytes, contents, last_place, last_place-snoc, live_bytes-snoc,
  snoc_cases,
}
use librascal.Chain.Append.Filling.{copy_in-Copied, copy_in-progress}
use librascal.Chain.Append.Last.{chain, chain-IsChain, new_item-IsItem, length-snoc}

-- What `append` leaves of the bytes `old` that were there and the bytes `src`: the old bytes, then
-- the part of `src` that it read.
pub record Appended (new : Allocator) (old src : List ℕ) (res : Option (Bool × DataChain))
    : Type 0 where
  pub done : Bool
  pub after : DataChain
  pub read : List ℕ
  pub unread : List ℕ
  pub returns : res ≡ some (done, after)
  pub valid : IsChain after
  pub divided : read ++ unread ≡ src
  pub held : contents after ≡ old ++ read
  pub outcome : ((done ≡ true) × (unread ≡ [])) ⊎ ((done ≡ false) × ((n : ℕ) × (new n ≡ none)))

-- With no byte left unread, the chain has them all.
pub Appended-whole :
    {new : Allocator} {old src : List ℕ} {res : Option (Bool × DataChain)}
    → (a : Appended new old src res) → a.unread ≡ []
    → contents a.after ≡ old ++ src
Appended-whole {old = old} a u =
    a.held
    ∙ ap (λ xs. old ++ xs) (sym (append-nil a.read) ∙ ap (λ xs. a.read ++ xs) (sym u) ∙ a.divided)

-- One round more, which moved `part` from the bytes to read into the chain.
Appended-trans :
    {new : Allocator} {old old' src src' : List ℕ} {res : Option (Bool × DataChain)}
    → (part : List ℕ) → old' ≡ old ++ part
    → part ++ src' ≡ src
    → Appended new old' src' res
    → Appended new old src res
Appended-trans {old = old} part e d a = record {
  done = a.done;
  after = a.after;
  read = part ++ a.read;
  unread = a.unread;
  returns = a.returns;
  valid = a.valid;
  divided = append_assoc part a.read a.unread ∙ ap (λ xs. part ++ xs) a.divided ∙ d;
  held = a.held ∙ ap (λ xs. xs ++ a.read) e ∙ append_assoc old part a.read;
  outcome = a.outcome;
}

-- The bytes of the chain after the inner loop has filled its last item.
fill-held :
    (pre : List DataChainItem) (it : DataChainItem) (src : List ℕ) (v : IsItem it)
    → live_bytes (pre ++ (copy_in it src).0 ∷ [])
      ≡ live_bytes (pre ++ it ∷ []) ++ (copy_in-Copied it src v).taken
fill-held pre it src v =
    let out = copy_in it src in
    let r = copy_in-Copied it src v in
    live_bytes-snoc pre out.0
    ∙ ap (◌++◌ (live_bytes pre)) r.grows
    ∙ sym (append_assoc (live_bytes pre) (live it) r.taken)
    ∙ ap (λ xs. xs ++ r.taken) (sym (live_bytes-snoc pre it))

module _ (new : Allocator) (fuel n : ℕ) (pre : List DataChainItem) (it : DataChainItem) (b : ℕ)
    (src : List ℕ) where
  -- A round at an item with room left.
  round-room :
      (it.used == capacity) ≡ false
      → append_loop new (suc fuel) n (chain pre it) (b ∷ src)
        ≡ append_loop new fuel n (chain pre (copy_in it (b ∷ src)).0) (copy_in it (b ∷ src)).1
  unfolding append_loop make_room
  round-room room =
      rw (get_elem?_last pre it, append_loop, tail_item, room)
        (rw (set_last pre it (copy_in it (b ∷ src)).0))

  -- A round that could not extend the chain.
  round-refused :
      (it.used == capacity) ≡ true
      → new n ≡ none
      → append_loop new (suc fuel) n (chain pre it) (b ∷ src) ≡ some (false, chain pre it)
  unfolding append_loop make_room
  round-refused full e =
      rw (get_elem?_last pre it, append_loop, tail_item, full, e) (rw (take_last pre it))

  -- A round that extends the chain.
  round-new :
      (m : ℕ → ℕ)
      → (it.used == capacity) ≡ true
      → new n ≡ some m
      → append_loop new (suc fuel) n (chain pre it) (b ∷ src)
        ≡ append_loop new fuel
            (suc n)
            (chain (pre ++ it ∷ []) (copy_in (new_item m) (b ∷ src)).0)
            (copy_in (new_item m) (b ∷ src)).1
  unfolding append_loop make_room
  round-new m full e =
      rw (get_elem?_last pre it, append_loop, tail_item, full, e)
        (rw (take_last pre it, ← length-snoc pre it)
          (rw (set_last (pre ++ it ∷ []) (new_item m) (copy_in (new_item m) (b ∷ src)).0)))

module _ (new : Allocator) where
  append_loop-Appended :
      (fuel n : ℕ) (pre : List DataChainItem) (it : DataChainItem) (src : List ℕ)
      → length src < fuel
      → All IsItem pre
      → IsItem it
      → Appended new (live_bytes (pre ++ it ∷ [])) src (append_loop new fuel n (chain pre it) src)
  append_loop-Appended zero n pre it src h p v = absurd (omega arith)
  append_loop-Appended (suc fuel) n pre it [] h p v = record {
    done = true;
    after = chain pre it;
    read = [];
    unread = [];
    returns = unfold append_loop in refl;
    valid = chain-IsChain pre it p v;
    divided = refl;
    held = sym (append-nil _);
    outcome = inl (refl, refl);
  }
  append_loop-Appended (suc fuel) n pre it (b ∷ src) h p v =
      elim (Bool-cases (it.used == capacity)) [
        | inl full ↦ elim (Option-cases (new n)) [
          | inl e ↦ record {
            done = false;
            after = chain pre it;
            read = [];
            unread = b ∷ src;
            returns = round-refused new fuel n pre it b src full e;
            valid = chain-IsChain pre it p v;
            divided = refl;
            held = sym (append-nil _);
            outcome = inr (refl, (n, e));
          }
          | inr (m, e) ↦
              let out = copy_in (new_item m) (b ∷ src) in
              let w = new_item-IsItem m in
              let r = copy_in-Copied (new_item m) (b ∷ src) w in
              let k = copy_in-progress (new_item m) b src w (omega arith) in
              let q : All IsItem (pre ++ it ∷ []) = All-append IsItem pre (it ∷ []) p (v, tt) in
              let s : live_bytes ((pre ++ it ∷ []) ++ new_item m ∷ [])
                  ≡ live_bytes (pre ++ it ∷ []) =
                live_bytes-snoc (pre ++ it ∷ []) (new_item m) ∙ append-nil _ in
              rw (round-new new fuel n pre it b src m full e) (
                Appended-trans r.taken
                  (fill-held (pre ++ it ∷ []) (new_item m) (b ∷ src) w ∙ ap (λ xs. xs ++ r.taken) s)
                  r.split
                  (append_loop-Appended fuel (suc n) (pre ++ it ∷ []) out.0 out.1 (omega arith) q
                    r.sound))
        ]
        | inr room ↦
            let out = copy_in it (b ∷ src) in
            let u : it.used < capacity = ground arith in
            let r = copy_in-Copied it (b ∷ src) v in
            let k = copy_in-progress it b src v u in
            rw (round-room new fuel n pre it b src room) (
              Appended-trans r.taken (fill-held pre it (b ∷ src) v) r.split
                (append_loop-Appended fuel n pre out.0 out.1 (omega arith) p r.sound))
      ]

append-at :
    (new : Allocator) (src : List ℕ) (items : List DataChainItem) (tail : Option ℕ)
    → tail ≡ last_place items
    → All IsItem items
    → Appended new (live_bytes items) src (append new (record { items = items; tail = tail }) src)
unfolding append
append-at new src [] tail e p = elim (Option-cases (new 0)) [
  | inl z ↦
      rw (z, append)
        (record {
          done = false;
          after = empty_chain;
          read = [];
          unread = src;
          returns = refl;
          valid = empty_chain-IsChain;
          divided = refl;
          held = refl;
          outcome = inr (refl, (0, z));
        })
  | inr (m, z) ↦
      rw (z, append)
        (append_loop-Appended new (suc (length src)) 1 [] (new_item m) src (omega arith) tt
          (new_item-IsItem m))
]
append-at new src (it ∷ items) tail e p =
    let (pre, last, q) = snoc_cases it items in
    let w : All IsItem (pre ++ last ∷ []) = subst (All IsItem) q p in
    let t : tail ≡ some (length pre) = e ∙ ap last_place q ∙ last_place-snoc pre last in
    rw t (
      subst
        (λ xs. Appended new (live_bytes xs) src (
          append_loop new (suc (length src)) 0 (record { items = xs; tail = some (length pre) })
            src))
        (sym q)
        (append_loop-Appended new (suc (length src)) 0 pre last src (omega arith)
          (All-append_left IsItem pre (last ∷ []) w)
          ((All-append_right IsItem pre (last ∷ []) w).0)))

-- At a valid chain `append` comes to an end with no fault: the chain stays valid and holds what it
-- held, followed by a first part of `src`; the rest is left unread. It returns true only if no byte
-- is left unread, and false only if an allocation failed.
pub append-Appended :
    (new : Allocator) (c : DataChain) (src : List ℕ)
    → IsChain c
    → Appended new (contents c) src (append new c src)
append-Appended new c src v = append-at new src c.items c.tail v.tail_last v.marks
