-- ===== src/Srv/Places/Resolve.antt =====
-- `getsrv::on_getaddr` as a whole.
use librascal.Prelude.{
  ℕ, ◌≤◌, ◌≡◌, refl, sym, subst, Bool, false, Option, none, some, List, [], ◌∷◌, All, inl, inr, ◌⊎◌,
}
use mathlib.Core.List.Perm as P
use librascal.Srv.{Record, Place}
use librascal.Srv.Places.{
  find_record, apply_aliases, sort, Attempt, left_by, try_next_server, on_getaddr,
}
use librascal.Srv.Places.Order.{priorities, sort-Shuffled}
use librascal.Srv.Places.Merge.{IsOrdered, Merged, apply_aliases-Merged}

All-priorities :
    (p : ℕ) (xs ys : List Place)
    → priorities xs ≡ priorities ys
    → All (λ (y : Place). p ≤ y.priority) ys
    → All (λ (x : Place). p ≤ x.priority) xs
All-priorities p [] ys e a = tt
All-priorities p (x ∷ xs) [] e a = absurd cc
All-priorities p (x ∷ xs) (y ∷ ys) e (a, b) =
    let h : y.priority ≡ x.priority = cc in
    let t : priorities xs ≡ priorities ys = cc in
    (subst (λ n. p ≤ n) h a, All-priorities p xs ys t b)

-- Whether a list is ordered depends on its priorities alone.
IsOrdered-priorities :
    (xs ys : List Place) → priorities xs ≡ priorities ys → IsOrdered ys → IsOrdered xs
IsOrdered-priorities [] ys e o = tt
IsOrdered-priorities (x ∷ xs) [] e o = absurd cc
IsOrdered-priorities (x ∷ xs) (y ∷ ys) e (a, o) =
    let h : y.priority ≡ x.priority = cc in
    let t : priorities xs ≡ priorities ys = cc in
    (
      subst (λ n. All (λ (z : Place). n ≤ z.priority) xs) h (All-priorities y.priority xs ys t a),
      IsOrdered-priorities xs ys t o,
    )

-- What `on_getaddr` comes to at records one of which is the host's. With records of other hosts left
-- these are kept with the list of addresses. Else `try_next_server` is called on that list.
abbrev pub Resolved :
    (Place → Bool)
    → (Place → Bool)
    → List ℕ
    → (ℕ → ℕ → Bool)
    → List (List ℕ)
    → List Record
    → List Place
    → List Record × List Place × Option Attempt
    → Type 0
Resolved filter connect host memory addrs records places out =
    ((r : Record) × (rs : List Record) × (after : List Place) × (out ≡ (r ∷ rs, after, none))
      × Merged host memory addrs records [] places (r ∷ rs) after)
    ⊎ ((after : List Place) × (out ≡ (
      [],
      left_by (try_next_server filter connect after),
      some (try_next_server filter connect after),
    ))
        × Merged host memory addrs records [] places [] after)

module _ (random : ℕ → ℕ → ℕ) (filter connect : Place → Bool) where
  -- What `on_getaddr` does behind its loop over the records.
  abbrev settled : List Record → List Place → List Record × List Place × Option Attempt
  settled left places = elim left [
    | [] ↦
        let tried = try_next_server filter connect (sort random places) in
        ([], left_by tried, some tried)
    | r ∷ rs ↦ (r ∷ rs, places, none)
  ]

  settled-Resolved :
      (host : List ℕ) (memory : ℕ → ℕ → Bool) (addrs : List (List ℕ)) (records : List Record)
      (places : List Place) (left : List Record) (after : List Place)
      → Merged host memory addrs records [] places left after
      → Resolved filter connect host memory addrs records places (settled left after)
  settled-Resolved host memory addrs records places [] after m =
      let (p, q) = sort-Shuffled random after in
      inr (
        sort random after,
        refl,
        record {
          kept = m.kept;
          merged = P.trans p m.merged;
          ordered = IsOrdered-priorities (sort random after) after q m.ordered;
        },
      )
  settled-Resolved host memory addrs records places (r ∷ rs) after m = inl (r, rs, after, refl, m)

  module _ (stale : ℕ → List ℕ) (memory : ℕ → ℕ → Bool) where
    on_getaddr_found :
        (addrs : List (List ℕ)) (id : ℕ) (records : List Record) (places : List Place)
        (base : Record)
        → find_record id records ≡ some base
        → let out = apply_aliases stale memory base addrs false records [] places in
          on_getaddr stale memory random filter connect addrs id records places
          ≡ settled out.0 out.1
    unfolding on_getaddr
    on_getaddr_found addrs id records places base e = rw (e, on_getaddr) refl

    -- When the addresses of a record come in, at a list ordered by priority, and if the host of that
    -- record can still be read once it is deleted: the records of other hosts are left, and the list
    -- becomes one ordered by priority that holds the old addresses and, for every record of the
    -- host, each new address for which there was memory, with the record's priority, weight and
    -- port; nothing else and nothing twice. If a record is left, `on_getaddr` keeps this list; else
    -- it keeps what `try_next_server` leaves of it, and does what that does. The random numbers do
    -- not matter.
    pub on_getaddr-Merged :
        (addrs : List (List ℕ)) (id : ℕ) (records : List Record) (places : List Place)
        (base : Record)
        → find_record id records ≡ some base
        → ((n : ℕ) → stale n ≡ base.host)
        → IsOrdered places
        → Resolved filter connect base.host memory addrs records places
            (on_getaddr stale memory random filter connect addrs id records places)
    on_getaddr-Merged addrs id records places base e same o =
        let out = apply_aliases stale memory base addrs false records [] places in
        subst (Resolved filter connect base.host memory addrs records places)
          (sym (on_getaddr_found addrs id records places base e))
          (settled-Resolved base.host memory addrs records places out.0 out.1
            (apply_aliases-Merged stale memory base addrs same false records [] places o))
