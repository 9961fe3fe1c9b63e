-- ===== src/Util/ArrayList/Count.antt =====
-- The array list as a collection: how often it holds an element.
use librascal.Prelude.{
  ℕ, zero, suc, ◌+◌, ◌-◌, ◌<◌, ◌≡◌, ◌≢◌, refl, sym, ap, ◌∙◌, Bool, true, false, none, some, List,
  [], ◌∷◌, length, get_elem?, set, take, ◌==◌, ==_iff, if◌then◌else◌, length-set, get_elem?-set_ne,
  get_elem?-set_self, Bool-cases, inl, inr, ◌⊎◌, arith,
}
use librascal.Util.ArrayList.{ArrayList, holds, index_of, remove}

abbrev pub hit : ℕ → ℕ → ℕ
hit y x = if x == y then 1 else 0

abbrev pub count : ℕ → List ℕ → ℕ
count y [] = 0
count y (x ∷ xs) = hit y x + count y xs

count-set :
    (y : ℕ) (xs : List ℕ) (i v old : ℕ)
    → get_elem? xs i ≡ some old
    → count y (set xs i v) + hit y old ≡ count y xs + hit y v
count-set y [] i v old e = absurd cc
count-set y (x ∷ xs) zero v old e =
    let q : x ≡ old = cc in let p : hit y old ≡ hit y x = ap (hit y) (sym q) in omega (arith, p)
count-set y (x ∷ xs) (suc i) v old e = omega (arith, count-set y xs i v old e)

count-take :
    (y : ℕ) (xs : List ℕ) (n last : ℕ)
    → get_elem? xs n ≡ some last
    → suc n ≡ length xs
    → count y (take n xs) + hit y last ≡ count y xs
count-take y [] n last e l = absurd cc
count-take y (x ∷ []) zero last e l =
    let q : x ≡ last = cc in let p : hit y last ≡ hit y x = ap (hit y) (sym q) in omega (arith, p)
count-take y (x ∷ z ∷ xs) zero last e l = absurd (omega arith)
count-take y (x ∷ xs) (suc n) last e l = omega (arith, count-take y xs n last e (omega arith))

get_elem?_inside : (xs : List ℕ) (i : ℕ) → i < length xs → (x : ℕ) × (get_elem? xs i ≡ some x)
get_elem?_inside [] i h = absurd (omega arith)
get_elem?_inside (x ∷ xs) zero h = (x, refl)
get_elem?_inside (x ∷ xs) (suc i) h = get_elem?_inside xs i (omega arith)

index_of-get_elem? :
    (obj : ℕ) (xs : List ℕ)
    → ((holds obj xs ≡ false) × (index_of obj xs ≡ none))
      ⊎ ((i : ℕ) × (index_of obj xs ≡ some i) × (get_elem? xs i ≡ some obj) × (i < length xs))
unfolding index_of holds
index_of-get_elem? obj [] = inl (refl, refl)
index_of-get_elem? obj (x ∷ xs) = elim (Bool-cases (x == obj)) [
  | inl e ↦ inr (0, rw e refl, ap some ((==_iff x obj).0 e), omega arith)
  | inr e ↦ elim (index_of-get_elem? obj xs) [
    | inl (h, n) ↦ inl (rw (e, h) refl, rw (e, n) refl)
    | inr (i, n, g, b) ↦ inr (suc i, rw (e, n) refl, g, omega arith)
  ]
]

remove_miss : (l : ArrayList) (obj : ℕ) → index_of obj l.items ≡ none → remove l obj ≡ (false, l)
unfolding remove
remove_miss l obj e = rw (e, remove) refl

remove_hit :
    (l : ArrayList) (obj i last : ℕ)
    → index_of obj l.items ≡ some i
    → get_elem? l.items (length l.items - 1) ≡ some last
    → remove l obj ≡ (true, record l { items = take (length l.items - 1) (set l.items i last) })
unfolding remove
remove_hit l obj i last e g = rw (e, remove) (rw g refl)

-- What `remove` may do, seen at an element y.
abbrev pub Removed : ArrayList → ℕ → ℕ → Bool × ArrayList → Type 0
Removed l obj y res =
    ((holds obj l.items ≡ false) × (res ≡ (false, l)))
    ⊎ ((res.0 ≡ true)
        × (count y res.1.items + hit y obj ≡ count y l.items)
        × (res.1.allocated ≡ l.allocated))

-- Either the list does not hold the object and `remove` returns false and changes nothing; or
-- `remove` returns true and takes one occurrence of the object out, while every other element is
-- held as often as before, and the array keeps its size.
pub remove-Removed : (l : ArrayList) (obj y : ℕ) → Removed l obj y (remove l obj)
remove-Removed l obj y = elim (index_of-get_elem? obj l.items) [
  | inl (h, n) ↦ inl (h, remove_miss l obj n)
  | inr (i, n, g, b) ↦
      let (last, k) = get_elem?_inside l.items (length l.items - 1) (omega arith) in
      let q = remove_hit l obj i last n k in
      let xs = set l.items i last in
      let p = count-set y l.items i last obj g in
      let t =
        count-take y xs (length l.items - 1) last (at_end l.items i last obj g k)
          (omega (arith, length-set l.items i last)) in
      let s : count y (take (length l.items - 1) xs) + hit y obj ≡ count y l.items =
        omega (arith, p, t) in
      inr (
        ap (λ (r : Bool × ArrayList). r.0) q,
        ap (λ (r : Bool × ArrayList). count y r.1.items + hit y obj) q ∙ s,
        ap (λ (r : Bool × ArrayList). r.1.allocated) q,
      )
]
  where
    at_end :
        (xs : List ℕ) (i last old : ℕ)
        → get_elem? xs i ≡ some old
        → get_elem? xs (length xs - 1) ≡ some last
        → get_elem? (set xs i last) (length xs - 1) ≡ some last
    at_end xs i last old g k = elim (Bool-cases (i == (length xs - 1))) [
      | inl e ↦
          let p = (==_iff i (length xs - 1)).0 e in
          ap (get_elem? (set xs i last)) (sym p) ∙ get_elem?-set_self xs i last old g
      | inr e ↦
          let p : i ≢ length xs - 1 = ground arith in
          get_elem?-set_ne xs i (length xs - 1) last p ∙ k
    ]
