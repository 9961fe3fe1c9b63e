-- ===== src/Packet/Fifo/Held.antt =====
-- The packets held, and the condition on the head of a chain.
use librascal.Prelude.{
  ℕ, suc, ◌<◌, ◌≡◌, ◌≢◌, refl, ap, ap₂, sym, ◌∙◌, ◌⊎◌, inl, inr, List, [], ◌∷◌, ◌++◌, length,
  Bool-cases, ◌==◌, arith,
}
use librascal.Chain.{trim}
use librascal.Chain.Item.{DataChainItem, update, slice, live}
use librascal.Chain.Valid.{last_place}
use librascal.Chain.Read.{HeadLive, tail-pop_head, live-exhausted}
use librascal.Packet.{write_at}

-- The packets held: an item with no byte left is none.
unfoldable pub cons_packet : List ℕ → List (List ℕ) → List (List ℕ)
cons_packet [] ps = ps
cons_packet (b ∷ p) ps = (b ∷ p) ∷ ps

abbrev pub packets : List DataChainItem → List (List ℕ)
packets [] = []
packets (it ∷ items) = cons_packet (live it) (packets items)

-- The head item has a byte to read; but the only item of a chain may be one never filled.
abbrev pub IsReady : List DataChainItem → Type 0
IsReady [] = Unit
IsReady (it ∷ []) = (it.dead < it.used) ⊎ (it.used ≡ 0)
IsReady (it ∷ x ∷ items) = it.dead < it.used

pub packets-append : (xs ys : List DataChainItem) → packets (xs ++ ys) ≡ packets xs ++ packets ys
packets-append [] ys = refl
packets-append (x ∷ xs) ys = ap (cons_packet (live x)) (packets-append xs ys) ∙ go (live x)
  where
    go :
        (p : List ℕ)
        → cons_packet p (packets xs ++ packets ys) ≡ cons_packet p (packets xs) ++ packets ys
    go [] = unfold cons_packet in refl
    go (b ∷ p) = unfold cons_packet in refl

write_at-below : (f : ℕ → ℕ) (i : ℕ) (src : List ℕ) (j : ℕ) → j < i → write_at f i src j ≡ f j
unfolding write_at
write_at-below f i [] j h = refl
write_at-below f i (b ∷ src) j h =
    let e : update f i b j ≡ f j = ground arith in
    write_at-below (update f i b) (suc i) src j (omega arith) ∙ e

pub slice-write_at :
    (f : ℕ → ℕ) (i : ℕ) (src : List ℕ) → slice (write_at f i src) i (length src) ≡ src
unfolding write_at
slice-write_at f i [] = refl
slice-write_at f i (b ∷ src) =
    let e : update f i b i ≡ b = ground arith in
    ap₂ ◌∷◌ (write_at-below (update f i b) (suc i) src i (omega arith) ∙ e)
      (slice-write_at (update f i b) (suc i) src)

pub trim-packets :
    (items : List DataChainItem) → packets (trim items (last_place items)).items ≡ packets items
unfolding trim cons_packet
trim-packets [] = refl
trim-packets (it ∷ items) = elim (Bool-cases (it.used == it.dead)) [
  | inl z ↦
      rw (z, tail-pop_head it items)
        (trim-packets items
          ∙ ap (λ p. cons_packet p (packets items)) (sym (live-exhausted it (ground arith))))
  | inr nz ↦ rw nz
]

pub IsReady-fill :
    (pre : List DataChainItem) (it it' : DataChainItem)
    → IsReady (pre ++ it ∷ [])
    → it'.dead < it'.used
    → IsReady (pre ++ it' ∷ [])
IsReady-fill [] it it' r h = inl h
IsReady-fill (x ∷ []) it it' r h = r
IsReady-fill (x ∷ y ∷ pre) it it' r h = r

pub IsReady-link :
    (pre : List DataChainItem) (it it' : DataChainItem)
    → IsReady (pre ++ it ∷ [])
    → it.used ≢ 0
    → IsReady ((pre ++ it ∷ []) ++ it' ∷ [])
IsReady-link [] it it' (inl r) h = r
IsReady-link [] it it' (inr r) h = absurd (h r)
IsReady-link (x ∷ []) it it' r h = r
IsReady-link (x ∷ y ∷ pre) it it' r h = r

pub HeadLive-IsReady : (items : List DataChainItem) → HeadLive items → IsReady items
HeadLive-IsReady [] h = tt
HeadLive-IsReady (it ∷ []) h = inl h
HeadLive-IsReady (it ∷ x ∷ items) h = h
