-- ===== src/Srv/Places/Order.antt =====
-- The order of a service's addresses.
use librascal.Prelude.{
  ℕ, zero, suc, ◌-◌, ◌≡◌, refl, sym, ap, ap₂, subst, ◌∙◌, Bool, true, false, ◌&&◌, ◌||◌, Option,
  none, some, List, [], ◌∷◌, ◌++◌, length, All, ltb, ◌==◌, ==_iff, if◌then◌else◌, arith, Bool-cases,
  Option-cases, inl, inr, ◌⊎◌,
}
use mathlib.Core.List.{Perm}
use mathlib.Core.List.Perm as P
use librascal.Srv.{Place, rec_srv_unavail}
use librascal.Srv.Places.{
  total_weight, choose, next_place, sort_loop, sort, Attempt, connecting, unavailable,
  try_next_server,
}

abbrev pub priorities : List Place → List ℕ
priorities [] = []
priorities (x ∷ xs) = x.priority ∷ priorities xs

-- A list in another order, with the same priority at every place.
abbrev pub Shuffled : List Place → List Place → Type 0
Shuffled xs ys = Perm xs ys × (priorities xs ≡ priorities ys)

some-pair :
    {x y : Place} {xs ys : List Place}
    → ◌≡◌ {A = Option (Place × List Place)} (some (x, xs)) (some (y, ys))
    → (x ≡ y) × (xs ≡ ys)
some-pair e = (cc, cc)

choose-Shuffled :
    (priority rnd : ℕ) (places : List Place) (x : Place) (xs : List Place)
    → choose priority rnd places ≡ some (x, xs)
    → (x.priority ≡ priority) × Shuffled (x ∷ xs) places
unfolding choose
choose-Shuffled priority rnd [] x xs e = absurd cc
choose-Shuffled priority rnd (y ∷ ys) x xs e = elim (Bool-cases (y.priority == priority)) [
  | inr h ↦ absurd (none-ne (sym (ended h) ∙ e))
  | inl h ↦
      let h' = (==_iff y.priority priority).0 h in
      elim (Bool-cases ((rnd == 0) || ltb rnd y.weight)) [
        | inl t ↦
            let (p, q) = some-pair (sym (hit h t) ∙ e) in
            (ap (λ (z : Place). z.priority) (sym p) ∙ h', moved y x ys xs p q)
        | inr t ↦ elim (Option-cases (choose priority (rnd - y.weight) ys)) [
          | inl o ↦ absurd (none-ne (sym (missed h t o) ∙ e))
          | inr ((z, zs), o) ↦
              let (p, q) = some-pair (sym (later h t z zs o) ∙ e) in
              let (k, (m, n)) = choose-Shuffled priority (rnd - y.weight) ys z zs o in
              let swapped : Shuffled (z ∷ y ∷ zs) (y ∷ ys) =
                (P.trans (P.swap y z zs) (P.cons y m), swapped_priorities z zs (k ∙ sym h') n) in
              (
                ap (λ (z : Place). z.priority) (sym p) ∙ k,
                subst (λ l. Shuffled l (y ∷ ys)) (ap₂ (λ a l. a ∷ l) p q) swapped,
              )
        ]
      ]
]
  where
    none-ne : ◌≡◌ {A = Option (Place × List Place)} none (some (x, xs)) → ⊥
    none-ne p = cc

    moved : (y x : Place) (ys xs : List Place) → y ≡ x → ys ≡ xs → Shuffled (x ∷ xs) (y ∷ ys)
    moved y x ys xs p q =
        subst (λ l. Shuffled l (y ∷ ys)) (ap₂ (λ a l. a ∷ l) p q) (P.refl (y ∷ ys), refl)

    swapped_priorities :
        (z : Place) (zs : List Place)
        → z.priority ≡ y.priority
        → z.priority ∷ priorities zs ≡ priorities ys
        → z.priority ∷ y.priority ∷ priorities zs ≡ y.priority ∷ priorities ys
    swapped_priorities z zs k n =
        ap (λ m. m ∷ y.priority ∷ priorities zs) k
        ∙ ap (λ m. y.priority ∷ m ∷ priorities zs) (sym k)
        ∙ ap (λ l. y.priority ∷ l) n

    ended : (y.priority == priority) ≡ false → choose priority rnd (y ∷ ys) ≡ none
    ended h = rw h refl

    hit :
        (y.priority == priority) ≡ true
        → ((rnd == 0) || ltb rnd y.weight) ≡ true
        → choose priority rnd (y ∷ ys) ≡ some (y, ys)
    hit h t = rw (h, t) refl

    missed :
        (y.priority == priority) ≡ true
        → ((rnd == 0) || ltb rnd y.weight) ≡ false
        → choose priority (rnd - y.weight) ys ≡ none
        → choose priority rnd (y ∷ ys) ≡ none
    missed h t o = rw (h, t, o) refl

    later :
        (y.priority == priority) ≡ true
        → ((rnd == 0) || ltb rnd y.weight) ≡ false
        → (z : Place) (zs : List Place) → choose priority (rnd - y.weight) ys ≡ some (z, zs)
        → choose priority rnd (y ∷ ys) ≡ some (z, y ∷ zs)
    later h t z zs o = rw (h, t, o) refl

-- What a round makes of the search's result.
abbrev taken : Place → List Place → Option (Place × List Place) → Place × List Place
taken x xs none = (x, xs)
taken x xs (some (y, ys)) = (y, ys)

next_place-Shuffled :
    (random : ℕ → ℕ) (x : Place) (xs : List Place)
    → Shuffled ((next_place random x xs).0 ∷ (next_place random x xs).1) (x ∷ xs)
unfolding next_place
next_place-Shuffled random x xs =
    let sum = total_weight x.priority (x ∷ xs) in
    go (choose x.priority (if sum == 0 then 0 else random (sum - 1)) (x ∷ xs))
      (choose-Shuffled x.priority (if sum == 0 then 0 else random (sum - 1)) (x ∷ xs))
  where
    go :
        (o : Option (Place × List Place))
        → ((y : Place) (ys : List Place)
            → o ≡ some (y, ys)
            → (y.priority ≡ x.priority) × Shuffled (y ∷ ys) (x ∷ xs))
        → Shuffled ((taken x xs o).0 ∷ (taken x xs o).1) (x ∷ xs)
    go none h = (P.refl (x ∷ xs), refl)
    go (some (y, ys)) h = (h y ys refl).1

length-Perm : (xs ys : List Place) → priorities xs ≡ priorities ys → length xs ≡ length ys
length-Perm [] [] e = refl
length-Perm [] (y ∷ ys) e = cc
length-Perm (x ∷ xs) [] e = cc
length-Perm (x ∷ xs) (y ∷ ys) e = ap suc (length-Perm xs ys cc)

sort_loop-Shuffled :
    (random : ℕ → ℕ → ℕ) (fuel : ℕ) (places : List Place)
    → length places ≡ fuel
    → Shuffled (sort_loop random fuel places) places
unfolding sort_loop
sort_loop-Shuffled random zero [] e = (P.nil, refl)
sort_loop-Shuffled random zero (x ∷ xs) e = absurd (omega arith)
sort_loop-Shuffled random (suc fuel) [] e = absurd (omega arith)
sort_loop-Shuffled random (suc fuel) (x ∷ xs) e =
    let n = next_place (random fuel) x xs in
    let (p, q) = next_place-Shuffled (random fuel) x xs in
    let l = length-Perm (n.0 ∷ n.1) (x ∷ xs) q in
    let (p', q') = sort_loop-Shuffled random fuel n.1 (omega (arith, l, e)) in
    (P.trans (P.cons n.0 p') p, ap (λ l. (n.0).priority ∷ l) q' ∙ q)

-- For any random numbers `sort` gives the same addresses in another order, in which every place has
-- the priority it had: addresses only change places with others of their priority.
pub sort-Shuffled :
    (random : ℕ → ℕ → ℕ) (places : List Place) → Shuffled (sort random places) places
unfolding sort
sort-Shuffled random places = sort_loop-Shuffled random (length places) places refl

-- Whether the client's filter and `rascal_connect` accept an address.
abbrev pub accepted : (Place → Bool) → (Place → Bool) → Place → Bool
accepted filter connect p = filter p && connect p

-- What `try_next_server` may do with a list of addresses.
abbrev pub Tried : (Place → Bool) → List Place → Attempt → Type 0
Tried ok places res =
    ((before : List Place) × (active : Place) × (rest : List Place) × (places
        ≡ before ++ active ∷ rest)
      × All (λ p. ok p ≡ false) before
      × (ok active ≡ true)
      × (res ≡ connecting active rest))
    ⊎ (All (λ p. ok p ≡ false) places × (res ≡ unavailable rec_srv_unavail))

-- `try_next_server` connects to the first address that both the client's filter and
-- `rascal_connect` accept, and keeps those behind it; if every address is refused it reports
-- REC_SRV_UNAVAIL.
pub try_next_server-Tried :
    (filter connect : Place → Bool) (places : List Place)
    → Tried (accepted filter connect) places (try_next_server filter connect places)
unfolding try_next_server
try_next_server-Tried filter connect [] = inr (tt, refl)
try_next_server-Tried filter connect (x ∷ xs) = elim (Bool-cases (filter x && connect x)) [
  | inl h ↦ inl ([], x, xs, refl, tt, h, rw h refl)
  | inr h ↦ elim (try_next_server-Tried filter connect xs) [
    | inl (b, a, r, e, n, k, q) ↦ inl (x ∷ b, a, r, ap (λ l. x ∷ l) e, (h, n), k, skip h ∙ q)
    | inr (n, q) ↦ inr ((h, n), skip h ∙ q)
  ]
]
  where
    skip :
        (filter x && connect x) ≡ false
        → try_next_server filter connect (x ∷ xs) ≡ try_next_server filter connect xs
    skip h = rw h refl
