-- ===== src/Util/Pages/Fresh.antt =====
-- No element of a page is given out twice.
pub mod Count
pub mod Elements
use native.Mathlib.Nat.{mul-div_cancel_left}
use librascal.Prelude.{
  ℕ, zero, suc, ◌+◌, ◌-◌, ◌*◌, ◌/◌, ◌≤◌, ◌<◌, ◌≡◌, refl, sym, ap, subst, ◌∙◌, Bool, true, false,
  not, Option, none, some, List, [], ◌∷◌, ◌++◌, length, length-append, length-set, take, take_all,
  All, All-append_left, All-append_right, All-append, ==_iff, ◌≢◌, ◌⊎◌, ◌↔◌, set, get_or, ltb, ◌==◌,
  if◌then◌else◌, if_true, if_false, arith, Bool-cases, inl, inr,
}
use librascal.Util.Pages.{Page, pointer, item_at, all_indexes, new_page, alloc, item_of, free_in}
use librascal.Util.Pages.Fresh.Count.{
  tally, count, count-append, below, count-all_indexes, length-all_indexes, take-suc, take-set,
}
use librascal.Util.Pages.Fresh.Elements.{
  element, IsPage, new_page-IsPage, alloc_cases, alloc-IsPage, free-IsPage,
}

-- What may happen to a page: `alloc` gives an element out, or one that is in use comes back.
pub data Step (isz : ℕ) : Page → List ℕ → Page → List ℕ → Type 0 where
  allocs :
      (p p' : Page) (used : List ℕ) (at : ℕ)
      → alloc isz p ≡ (some at, p')
      → Step isz p used p' (at ∷ used)
  frees :
      (p : Page) (us vs : List ℕ) (at : ℕ) → Step isz p (us ++ at ∷ vs) (free_in at p) (us ++ vs)

pub data Steps (isz : ℕ) : Page → List ℕ → Page → List ℕ → Type 0 where
  done : (p : Page) (used : List ℕ) → Steps isz p used p used
  next :
      {p q r : Page} {us vs ws : List ℕ}
      → Step isz p us q vs
      → Steps isz q vs r ws
      → Steps isz p us r ws

Step-IsPage :
    (psz isz : ℕ) {p q : Page} {us vs : List ℕ}
    → Step isz p us q vs
    → IsPage psz isz p us
    → IsPage psz isz q vs
Step-IsPage psz isz (frees p us vs at) v = free-IsPage psz isz p us vs at v
Step-IsPage psz isz (allocs p p' used at e) v = elim (alloc_cases psz isz p used v) [
  | inl (z, k) ↦ absurd (clash at (ap (λ (r : Option ℕ × Page). r.0) (sym k ∙ e)))
  | inr (a, z, k) ↦
      let q : Path (Option ℕ × Page)
          (some (element isz (get_or p.index a 0)), record p { available = a }) (some at, p') =
        sym k ∙ e in
      subst (λ (r : Page). IsPage psz isz r (at ∷ used)) (ap (λ (r : Option ℕ × Page). r.1) q)
        (subst (λ n. IsPage psz isz (record p { available = a }) (n ∷ used))
          (some_injective _ at (ap (λ (r : Option ℕ × Page). r.0) q))
          (alloc-IsPage psz isz a p used v z))
]
  where
    clash : (n : ℕ) → Path (Option ℕ) none (some n) → ⊥
    clash n e = cc

    some_injective : (m n : ℕ) → Path (Option ℕ) (some m) (some n) → m ≡ n
    some_injective m n e = cc

Steps-IsPage :
    (psz isz : ℕ) {p q : Page} {us vs : List ℕ}
    → Steps isz p us q vs
    → IsPage psz isz p us
    → IsPage psz isz q vs
Steps-IsPage psz isz (done p used) v = v
Steps-IsPage psz isz (next step rest) v = Steps-IsPage psz isz rest (Step-IsPage psz isz step v)

-- From a new page of `psz` elements of a size, after any calls of `alloc` for that size and any
-- returns of elements in use: no element is in use twice, the elements in use and those available
-- are `psz` together, and `alloc` finds none exactly if all are in use.
pub page_lives :
    (psz isz : ℕ) {p : Page} {used : List ℕ}
    → Steps isz (new_page psz isz) [] p used
    → ((i : ℕ) → count (element isz i) used ≤ 1)
      × (p.available + length used ≡ psz)
      × (((alloc isz p).0 ≡ none) ↔ (length used ≡ psz))
page_lives psz isz {p} {used} steps =
    let v = Steps-IsPage psz isz steps (new_page-IsPage psz isz) in
    (λ i. once _ _ (ltb i psz) (v.split i), v.counts, (λ e. full v e, λ e. empty v e))
  where
    once : (m n : ℕ) (b : Bool) → m + n ≡ tally b → n ≤ 1
    once m n true e = omega arith
    once m n false e = omega arith

    clash : (n : ℕ) → Path (Option ℕ) (some n) none → ⊥
    clash n e = cc

    full : IsPage psz isz p used → (alloc isz p).0 ≡ none → length used ≡ psz
    full v e = elim (alloc_cases psz isz p used v) [
      | inl (z, k) ↦ omega (arith, v.counts, z)
      | inr (a, z, k) ↦ absurd (clash _ (sym (ap (λ (r : Option ℕ × Page). r.0) k) ∙ e))
    ]

    empty : IsPage psz isz p used → length used ≡ psz → (alloc isz p).0 ≡ none
    empty v e = elim (alloc_cases psz isz p used v) [
      | inl (z, k) ↦ ap (λ (r : Option ℕ × Page). r.0) k
      | inr (a, z, k) ↦ absurd (omega (arith, v.counts, z, e))
    ]
