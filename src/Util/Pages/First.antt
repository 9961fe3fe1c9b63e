-- ===== src/Util/Pages/First.antt =====
-- Which page an object comes from.
use librascal.Prelude.{
  ℕ, suc, ◌+◌, ◌-◌, ◌≡◌, refl, sym, ap, ◌∙◌, Bool, true, false, not, Option, none, some, List, [],
  ◌∷◌, ◌++◌, length, All, get_or, ◌==◌, ==_iff, if◌then◌else◌, if_true, if_false, arith, Bool-cases,
  inl, inr, ◌⊎◌,
}
use librascal.Util.Pages.{
  Page, pointer, item_at, new_page, alloc, Block, block_in, malloc_from, pmalloc,
}

-- A page of objects of this size with one that is free gives it.
alloc_given :
    (isz : ℕ) (p : Page)
    → p.itemsize ≡ isz
    → (p.available == 0) ≡ false
    → (at : ℕ) × (p' : Page) × (alloc isz p ≡ (some at, p'))
unfolding alloc
alloc_given isz p s e = (
  item_at p.itemsize (get_or p.index (p.available - 1) 0) + pointer,
  record p { available = p.available - 1 },
  ap
        (λ b. if not b then (none, p) else if p.available == 0 then (none, p) else (
          some (item_at p.itemsize (get_or p.index (p.available - 1) 0) + pointer),
          record p { available = p.available - 1 },
        ))
        ((==_iff isz p.itemsize).1 (sym s))
      ∙ if_false (p.available == 0) _ _ e,
)

-- An object comes from the first page that has one free, or from a new one behind pages that have
-- none.
pub record Given (psz isz k : ℕ) (pages : List Page) (r : Option Block × List Page) : Type 0 where
  pub front : List Page
  pub from : Page
  pub left : Page
  pub behind : List Page
  pub at : ℕ
  pub full : All (λ (p : Page). (p.available == 0) ≡ true) front
  pub taken : alloc isz from ≡ (some at, left)
  pub result : r ≡ (some (record { page = k + length front; at = at }), front ++ left ∷ behind)
  pub source :
      (pages ≡ front ++ from ∷ behind)
      ⊎ ((pages ≡ front) × (behind ≡ []) × (from ≡ new_page (suc psz) isz))

-- No memory for the page that would be needed.
pub record Refused (memory : Bool) (pages : List Page) (r : Option Block × List Page) : Type 0 where
  pub no_memory : memory ≡ false
  pub full : All (λ (p : Page). (p.available == 0) ≡ true) pages
  pub result : r ≡ (none, pages)

found_here :
    (memory : Bool) (psz isz k : ℕ) (p : Page) (ps : List Page)
    → p.itemsize ≡ isz
    → (p.available == 0) ≡ false
    → Given psz isz k (p ∷ ps) (malloc_from memory psz isz k (p ∷ ps))
unfolding malloc_from
found_here memory psz isz k p ps s e =
    let (at, p', q) = alloc_given isz p s e in
    record {
      front = [];
      from = p;
      left = p';
      behind = ps;
      at = at;
      full = tt;
      taken = q;
      result =
          if_true (not (p.available == 0)) _ _ (ap not e)
          ∙ ap (λ (r : Option ℕ × Page). (block_in k r.0, r.1 ∷ ps)) q
          ∙ ap (λ n. (some (record { page = n; at = at }), p' ∷ ps)) (plus k);
      source = inl refl;
    }
  where
    plus : (n : ℕ) → n ≡ n + 0
    plus n = omega arith

-- The result of a full page, from that of the pages behind it.
passed_by :
    (memory : Bool) (psz isz k : ℕ) (p : Page) (ps : List Page)
    → (p.available == 0) ≡ true
    → malloc_from memory psz isz k (p ∷ ps)
      ≡ ((malloc_from memory psz isz (suc k) ps).0, p ∷ (malloc_from memory psz isz (suc k) ps).1)
unfolding malloc_from
passed_by memory psz isz k p ps e = if_false (not (p.available == 0)) _ _ (ap not e)

Given-behind :
    (memory : Bool) (psz isz k : ℕ) (p : Page) (ps : List Page)
    → (p.available == 0) ≡ true
    → Given psz isz (suc k) ps (malloc_from memory psz isz (suc k) ps)
    → Given psz isz k (p ∷ ps) (malloc_from memory psz isz k (p ∷ ps))
Given-behind memory psz isz k p ps e g = record {
  front = p ∷ g.front;
  from = g.from;
  left = g.left;
  behind = g.behind;
  at = g.at;
  full = (e, g.full);
  taken = g.taken;
  result =
      passed_by memory psz isz k p ps e
      ∙ ap (λ (r : Option Block × List Page). (r.0, p ∷ r.1)) g.result
      ∙ ap (λ n. (some (record { page = n; at = g.at }), p ∷ (g.front ++ g.left ∷ g.behind)))
          (move k (length g.front));
  source = elim g.source [
    | inl q ↦ inl (ap (λ l. p ∷ l) q)
    | inr (q, b, n) ↦ inr (ap (λ l. p ∷ l) q, b, n)
  ];
}
  where
    move : (m n : ℕ) → suc m + n ≡ m + suc n
    move m n = omega arith

Refused-behind :
    (memory : Bool) (psz isz k : ℕ) (p : Page) (ps : List Page)
    → (p.available == 0) ≡ true
    → Refused memory ps (malloc_from memory psz isz (suc k) ps)
    → Refused memory (p ∷ ps) (malloc_from memory psz isz k (p ∷ ps))
Refused-behind memory psz isz k p ps e r = record {
  no_memory = r.no_memory;
  full = (e, r.full);
  result =
      passed_by memory psz isz k p ps e
      ∙ ap (λ (r : Option Block × List Page). (r.0, p ∷ r.1)) r.result;
}

found_new : (psz isz k : ℕ) → Given psz isz k [] (malloc_from true psz isz k [])
unfolding malloc_from new_page
found_new psz isz k =
    let (at, p', q) = alloc_given isz (new_page (suc psz) isz) refl (positive psz) in
    record {
      front = [];
      from = new_page (suc psz) isz;
      left = p';
      behind = [];
      at = at;
      full = tt;
      taken = q;
      result =
          ap (λ (r : Option ℕ × Page). (block_in k r.0, r.1 ∷ [])) q
          ∙ ap (λ n. (some (record { page = n; at = at }), p' ∷ [])) (plus k);
      source = inr (refl, refl, refl);
    }
  where
    plus : (n : ℕ) → n ≡ n + 0
    plus n = omega arith

    positive : (n : ℕ) → (suc n == 0) ≡ false
    positive n = ground arith

-- The loop of `pmalloc` from the page of number k on.
malloc_from-Given :
    (memory : Bool) (psz isz k : ℕ) (pages : List Page)
    → All (λ (p : Page). p.itemsize ≡ isz) pages
    → Given psz isz k pages (malloc_from memory psz isz k pages)
      ⊎ Refused memory pages (malloc_from memory psz isz k pages)
unfolding malloc_from
malloc_from-Given false psz isz k [] a = inr (record { no_memory = refl; full = tt; result = refl })
malloc_from-Given true psz isz k [] a = inl (found_new psz isz k)
malloc_from-Given memory psz isz k (p ∷ ps) (s, a) = elim (Bool-cases (p.available == 0)) [
  | inl e ↦ elim (malloc_from-Given memory psz isz (suc k) ps a) [
    | inl g ↦ inl (Given-behind memory psz isz k p ps e g)
    | inr r ↦ inr (Refused-behind memory psz isz k p ps e r)
  ]
  | inr e ↦ inl (found_here memory psz isz k p ps s e)
]

-- `pmalloc`, where the pages are of objects of the size asked for, takes the object from the first
-- page that has one free, or from a new page behind all the others, and changes no other page; it
-- gives NULL only if each page is full and there is no memory for another, and then changes nothing.
pub pmalloc-Given :
    (memory : Bool) (psz isz : ℕ) (pages : List Page)
    → All (λ (p : Page). p.itemsize ≡ isz) pages
    → Given psz isz 0 pages (pmalloc memory psz isz pages)
      ⊎ Refused memory pages (pmalloc memory psz isz pages)
pmalloc-Given memory psz isz pages a = malloc_from-Given memory psz isz 0 pages a
