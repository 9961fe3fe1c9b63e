-- ===== src/Requests/Queue.antt =====
-- The queue of requests under the monitor.
use librascal.Prelude.{
  ℕ, ◌+◌, ◌≤◌, ◌≡◌, refl, Bool, true, false, List, [], ◌∷◌, All, leb, ◌==◌, if◌then◌else◌, if_true,
  if_false, arith, Option, none, some, ap, ◌∙◌, Bool-cases, inl, inr, ◌⊎◌,
}
use mathlib.Core.List.{Memᴰ}
use mathlib.Core.Option
use librascal.Util.Ftspec.{Ftspec, after}
use librascal.Requests.{
  Request, flush, sent_to, Visit, passed, timed_out, waiting, visit, ttl_of, Walk, sooner, walk,
}

-- A request that is cancelled, or was sent at most `repeat` times.
abbrev pub Within : ℕ → Request → Type 0
Within repeat r = (r.cancelled ≡ true) ⊎ (r.rcount ≤ repeat)

-- A request sent `repeat` times whose wait is over at a time.
abbrev ExpiredAt : ℕ → ℕ → Ftspec → Request → Type 0
ExpiredAt timeout repeat now r =
    (r.cancelled ≡ false) × (repeat ≤ r.rcount) × (after now (ttl_of now timeout r) ≡ true)

-- A request of the queue whose wait is over at its turn.
abbrev pub Expired : ℕ → ℕ → List (Request × Ftspec) → Request → Type 0
Expired timeout repeat items r =
    (now : Ftspec) × Memᴰ (r, now) items × ExpiredAt timeout repeat now r

-- What a walk comes to: the requests left and cancelled, none of them deleted, or the fault at a
-- request that `cancel` deleted.
abbrev pub Walked : (Request → Bool) → ℕ → ℕ → List (Request × Ftspec) → Option Walk → Type 0
Walked deleted timeout repeat items res =
    ((w : Walk) × (res ≡ some w)
      × All (Within repeat) w.left
      × All (λ r. Expired timeout repeat items r × (deleted r ≡ false)) w.cancels)
    ⊎ ((r : Request) × (res ≡ none) × Expired timeout repeat items r × (deleted r ≡ true))

flush-rcount :
    (dumped : Bool) (servers : List (ℕ × ℕ)) (r : Request)
    → ((flush dumped servers r).2).rcount ≤ r.rcount + 1
unfolding flush
flush-rcount false servers r = omega arith
flush-rcount true servers r = elim (Bool-cases (sent_to servers == 0)) [
  | inl h ↦ rw h (omega arith)
  | inr h ↦ rw h (omega arith)
]

-- What a visit comes to.
abbrev Visited : ℕ → ℕ → Ftspec → Request → Visit → Type 0
Visited timeout repeat now item passed = Unit
Visited timeout repeat now item (timed_out r) = (r ≡ item) × ExpiredAt timeout repeat now r
Visited timeout repeat now item (waiting resent r ttl) = Within repeat r

visit-Visited :
    (dumped : Bool) (servers : List (ℕ × ℕ)) (timeout repeat : ℕ) (now : Ftspec) (item : Request)
    → Within repeat item
    → Visited timeout repeat now item (visit dumped servers timeout repeat now item)
unfolding visit
visit-Visited dumped servers timeout repeat now item h =
    go item.cancelled refl (after now (ttl_of now timeout item)) refl (leb repeat item.rcount) refl
  where
    sent : Request
    sent = (flush dumped servers item).2

    below : {n : ℕ} → n ≤ item.rcount + 1 → leb repeat item.rcount ≡ false → n ≤ repeat
    below p g = ground arith

    go :
        (c : Bool)
        → item.cancelled ≡ c
        → (a : Bool) → after now (ttl_of now timeout item) ≡ a
        → (l : Bool) → leb repeat item.rcount ≡ l
        → Visited timeout repeat now item (
            if c
            then passed
            else if a
            then (if l then timed_out item else waiting true sent (ttl_of now timeout sent))
            else waiting false item (ttl_of now timeout item))
    go true e a f l g = tt
    go false e false f l g = h
    go false e true f true g = (refl, (e, ground arith, f))
    go false e true f false g = inr (below (flush-rcount dumped servers item) g)

module _ (deleted : Request → Bool) (dumped : Bool) (servers : List (ℕ × ℕ))
    (timeout repeat : ℕ) where
  later :
      (item : Request × Ftspec) (items : List (Request × Ftspec)) (r : Request)
      → Expired timeout repeat items r
      → Expired timeout repeat (item ∷ items) r
  later item items r (now, m, e) = (now, Memᴰ.tail m, e)

  later-All :
      (item : Request × Ftspec) (items : List (Request × Ftspec)) (rs : List Request)
      → All (λ r. Expired timeout repeat items r × (deleted r ≡ false)) rs
      → All (λ r. Expired timeout repeat (item ∷ items) r × (deleted r ≡ false)) rs
  later-All item items [] h = tt
  later-All item items (r ∷ rs) ((e, d), h) = ((later item items r e, d), later-All item items rs h)

  keeps-Walked :
      (item : Request × Ftspec) (items : List (Request × Ftspec)) (r : Request) (res : Option Walk)
      → Within repeat r
      → Walked deleted timeout repeat items res
      → Walked deleted timeout repeat
          (item ∷ items)
          (Option.map (λ (w : Walk). record w { left = r ∷ w.left }) res)
  keeps-Walked item items r res h (inl (w, e, l, c)) = inl (
    record w { left = r ∷ w.left },
    ap (Option.map (λ (w : Walk). record w { left = r ∷ w.left })) e,
    (h, l),
    later-All item items w.cancels c,
  )
  keeps-Walked item items r res h (inr (q, e, x, d)) =
      inr (
        q,
        ap (Option.map (λ (w : Walk). record w { left = r ∷ w.left })) e,
        later item items q x,
        d,
      )

  cancels-Walked :
      (item : Request × Ftspec) (items : List (Request × Ftspec)) (r : Request) (res : Option Walk)
      → Expired timeout repeat (item ∷ items) r
      → Walked deleted timeout repeat items res
      → Walked deleted timeout repeat (item ∷ items) (
          if deleted r
          then none
          else Option.map (λ (w : Walk). record w { cancels = r ∷ w.cancels }) res)
  cancels-Walked item items r res x h = elim (Bool-cases (deleted r)) [
    | inl d ↦ inr (r, if_true (deleted r) _ _ d, x, d)
    | inr d ↦ elim h [
      | inl (w, e, l, c) ↦ inl (
        record w { cancels = r ∷ w.cancels },
        if_false (deleted r) _ _ d
            ∙ ap (Option.map (λ (w : Walk). record w { cancels = r ∷ w.cancels })) e,
        l,
        ((x, d), later-All item items w.cancels c),
      )
      | inr (q, e, y, z) ↦ inr (
        q,
        if_false (deleted r) _ _ d
            ∙ ap (Option.map (λ (w : Walk). record w { cancels = r ∷ w.cancels })) e,
        later item items q y,
        z,
      )
    ]
  ]

  -- From a queue of requests that are cancelled or were sent at most RO_DNS_RETRY times, one walk of
  -- the monitor leaves such requests. It cancels only requests of the queue that are not cancelled
  -- yet, were sent at least that often and whose wait for a reply is over at the time of their turn.
  -- It comes to an end if `cancel` deletes none of these, and to a fault at one that it deletes.
  pub walk-Within :
      (items : List (Request × Ftspec)) (until : Ftspec) (rc : Bool)
      → All (λ (i : Request × Ftspec). Within repeat i.0) items
      → Walked deleted timeout repeat items
          (walk deleted dumped servers timeout repeat items until rc)
  unfolding walk
  walk-Within [] until rc h =
      inl (record { rc = rc; until = until; left = []; cancels = [] }, refl, tt, tt)
  walk-Within ((item, now) ∷ rest) until rc (h, hs) =
      go (λ u b. walk-Within rest u b hs) (visit dumped servers timeout repeat now item)
        (visit-Visited dumped servers timeout repeat now item h)
    where
      next : Visit → Option Walk
      next v = elim v [
        | passed ↦
            Option.map (λ (w : Walk). record w { left = item ∷ w.left })
              (walk deleted dumped servers timeout repeat rest until rc)
        | timed_out req ↦
            let behind = walk deleted dumped servers timeout repeat rest until true in
            if deleted req
            then none
            else Option.map (λ (w : Walk). record w { cancels = req ∷ w.cancels }) behind
        | waiting resent req ttl ↦
            Option.map (λ (w : Walk). record w { left = req ∷ w.left })
              (walk deleted dumped servers timeout repeat rest (sooner until ttl) true)
      ]

      go :
          ((u : Ftspec) (b : Bool)
            → Walked deleted timeout repeat rest
                (walk deleted dumped servers timeout repeat rest u b))
          → (v : Visit) → Visited timeout repeat now item v
          → Walked deleted timeout repeat ((item, now) ∷ rest) (next v)
      go f passed u = keeps-Walked (item, now) rest item _ h (f until rc)
      go f (timed_out r) (q, x) =
          cancels-Walked (item, now) rest r _ (now, Memᴰ.head (ap (λ i. (i, now)) q), x)
            (f until true)
      go f (waiting resent r ttl) u =
          keeps-Walked (item, now) rest r _ u (f (sooner until ttl) true)
