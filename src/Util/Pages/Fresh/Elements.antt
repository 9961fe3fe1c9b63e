-- ===== src/Util/Pages/Fresh/Elements.antt =====
-- The elements of a page that are free and those that are in use.
use native.Mathlib.Nat.{mul-div_cancel_left}
use librascal.Prelude.{
  ℕ, zero, suc, ◌+◌, ◌-◌, ◌*◌, ◌/◌, ◌<◌, ◌≡◌, refl, sym, ap, ◌∙◌, Bool, true, false, not, Option,
  none, some, List, [], ◌∷◌, ◌++◌, length, length-append, length-set, take, take_all, All,
  All-append_left, All-append_right, All-append, ==_iff, ◌≢◌, ◌⊎◌, set, get_or, ◌==◌, if◌then◌else◌,
  if_true, if_false, arith, Bool-cases, inl, inr,
}
use librascal.Util.Pages.{Page, pointer, item_at, all_indexes, new_page, alloc, item_of, free_in}
use librascal.Util.Pages.Fresh.Count.{
  tally, count, count-append, below, count-all_indexes, length-all_indexes, take-suc, take-set,
}

-- The address of the body of an element.
abbrev pub element : ℕ → ℕ → ℕ
element isz i = item_at isz i + pointer

item_of-element : (p : Page) (isz i : ℕ) → p.itemsize ≡ isz → item_of p (element isz i) ≡ i
item_of-element p isz i e =
    let front : item_of p (element isz i) ≡ ((isz + pointer) * i) / (p.itemsize + pointer) =
      ap (λ n. n / (p.itemsize + pointer)) (back ((isz + pointer) * i)) in
    front ∙ ap (λ n. ((isz + pointer) * i) / (n + pointer)) e ∙ mul-div_cancel_left i (omega arith)
  where
    back : (n : ℕ) → n + pointer - pointer ≡ n
    back n = omega arith

element_injective : (isz i j : ℕ) → element isz i ≡ element isz j → i ≡ j
element_injective isz i j e =
    let p : Page = record { itemsize = isz; available = 0; index = [] } in
    sym (item_of-element p isz i refl) ∙ ap (λ n. item_of p n) e ∙ item_of-element p isz j refl

-- A page of `psz` elements, those at the addresses of `used` given out: each index is either free,
-- at one place of the first `available`, or in use, once.
pub record IsPage (psz isz : ℕ) (p : Page) (used : List ℕ) : Type 0 where
  pub same_size : p.itemsize ≡ isz
  pub room : length p.index ≡ psz
  pub counts : p.available + length used ≡ psz
  pub split :
      (x : ℕ) → count x (take p.available p.index) + count (element isz x) used ≡ below x psz
  pub places : All (λ at. (i : ℕ) × (at ≡ element isz i)) used

pub new_page-IsPage : (psz isz : ℕ) → IsPage psz isz (new_page psz isz) []
unfolding new_page count
new_page-IsPage psz isz = record {
  same_size = refl;
  room = length-all_indexes psz;
  counts = omega arith;
  split = λ x.
      let whole = take_all psz (all_indexes psz) (omega (arith, length-all_indexes psz)) in
      let e = ap (λ l. count x l) whole ∙ count-all_indexes x psz in plain e;
  places = tt;
}
  where
    plain : {a b : ℕ} → a ≡ b → a + 0 ≡ b
    plain e = omega arith

same_test : (isz i x : ℕ) → tally (element isz i == element isz x) ≡ tally (i == x)
same_test isz i x = ap tally (same (i == x) refl)
  where
    clash : true ≢ false
    clash = λ e. cc

    same : (b : Bool) → (i == x) ≡ b → (element isz i == element isz x) ≡ (i == x)
    same true e =
        (==_iff (element isz i) (element isz x)).1 (ap (λ n. element isz n) ((==_iff i x).0 e))
        ∙ sym e
    same false e = elim (Bool-cases (element isz i == element isz x)) [
      | inl k ↦
          let j = element_injective isz i x ((==_iff (element isz i) (element isz x)).0 k) in
          absurd (clash (sym ((==_iff i x).1 j) ∙ e))
      | inr k ↦ k ∙ sym e
    ]

-- `alloc` finds no element, or takes the last free one.
pub alloc_cases :
    (psz isz : ℕ) (p : Page) (used : List ℕ)
    → IsPage psz isz p used
    → ((p.available ≡ 0) × (alloc isz p ≡ (none, p)))
      ⊎ ((a : ℕ) × (p.available ≡ suc a)
          × (alloc isz p ≡ (some (element isz (get_or p.index a 0)), record p { available = a })))
unfolding alloc
alloc_cases psz isz p used v = go p.available refl
  where
    same : (isz == p.itemsize) ≡ true
    same = (==_iff isz p.itemsize).1 (sym v.same_size)

    taken : ℕ → Option ℕ × Page
    taken a = (some (element p.itemsize (get_or p.index (a - 1) 0)), record p { available = a - 1 })

    go :
        (n : ℕ)
        → p.available ≡ n
        → ((p.available ≡ 0) × (alloc isz p ≡ (none, p)))
          ⊎ ((a : ℕ) × (p.available ≡ suc a)
              × (alloc isz p
                  ≡ (some (element isz (get_or p.index a 0)), record p { available = a })))
    go zero e = inl (
      e,
      ap
            (λ b.
              if not b
              then (none, p)
              else if p.available == 0
              then (none, p)
              else taken p.available)
            same
          ∙ if_true (p.available == 0) _ _ ((==_iff p.available 0).1 e),
    )
    go (suc a) e = inr (
      a,
      e,
      ap
            (λ b.
              if not b
              then (none, p)
              else if p.available == 0
              then (none, p)
              else taken p.available)
            same
          ∙ if_false (p.available == 0) _ _ (nonzero p.available e)
          ∙ ap
              (λ (n : ℕ).
                (some (element p.itemsize (get_or p.index n 0)), record p { available = n }))
              (less p.available e)
          ∙ ap (λ (m : ℕ). (some (element m (get_or p.index a 0)), record p { available = a }))
              v.same_size,
    )
      where
        nonzero : (n : ℕ) → n ≡ suc a → (n == 0) ≡ false
        nonzero n e = ground arith

        less : (n : ℕ) → n ≡ suc a → n - 1 ≡ a
        less n e = omega arith

pub alloc-IsPage :
    (psz isz a : ℕ) (p : Page) (used : List ℕ)
    → IsPage psz isz p used
    → p.available ≡ suc a
    → IsPage psz isz (record p { available = a }) (element isz (get_or p.index a 0) ∷ used)
unfolding count
alloc-IsPage psz isz a p used v e = record {
  same_size = v.same_size;
  room = v.room;
  counts = omega (arith, v.counts, e);
  split = λ x.
      let i = get_or p.index a 0 in
      let all =
        ap (λ n. count x (take n p.index)) e
        ∙ ap (λ l. count x l) (take-suc a p.index (omega (arith, v.counts, v.room, e)))
        ∙ count-append x (take a p.index) (i ∷ []) in
      moved (count x (take a p.index)) (tally (i == x)) (tally (element isz i == element isz x)) _ _
        _ (same_test isz i x) all (v.split x);
  places = ((get_or p.index a 0, refl), v.places);
}
  where
    moved :
        (free one one' used whole n : ℕ)
        → one' ≡ one
        → whole ≡ free + (one + 0)
        → whole + used ≡ n
        → free + (one' + used) ≡ n
    moved free one one' used whole n s e f = omega arith

pub free-IsPage :
    (psz isz : ℕ) (p : Page) (us vs : List ℕ) (at : ℕ)
    → IsPage psz isz p (us ++ at ∷ vs)
    → IsPage psz isz (free_in at p) (us ++ vs)
unfolding free_in count
free-IsPage psz isz p us vs at v =
    let (i, e) =
      (All-append_right (λ at. (i : ℕ) × (at ≡ element isz i)) us (at ∷ vs) v.places).0 in
    let back : item_of p at ≡ i = ap (λ n. item_of p n) e ∙ item_of-element p isz i v.same_size in
    let l = length-append us (at ∷ vs) in
    let inside : p.available < length p.index = omega (arith, v.counts, v.room, l) in
    record {
      same_size = v.same_size;
      room = length-set p.index p.available (item_of p at) ∙ v.room;
      counts = omega (arith, v.counts, l, length-append us vs);
      split = λ x.
          let whole =
            ap (λ n. count x (take n (set p.index p.available (item_of p at))))
              (one_more p.available)
            ∙ ap (λ l. count x l) (take-set p.available p.index (item_of p at) inside)
            ∙ count-append x (take p.available p.index) (item_of p at ∷ []) in
          let hit = ap (λ n. tally (n == x)) back in
          let old = ap (λ n. tally (n == element isz x)) e ∙ same_test isz i x in
          moved _ _ _ _ _ _ _ _ _ _ whole hit old (count-append (element isz x) us (at ∷ vs))
            (count-append (element isz x) us vs) (v.split x);
      places =
          All-append (λ at. (i : ℕ) × (at ≡ element isz i)) us vs
            (All-append_left _ us (at ∷ vs) v.places)
            (All-append_right (λ at. (i : ℕ) × (at ≡ element isz i)) us (at ∷ vs) v.places).1;
    }
  where
    one_more : (n : ℕ) → n + 1 ≡ suc n
    one_more n = omega arith

    moved :
        (whole free hit one old a b n both rest : ℕ)
        → whole ≡ free + (hit + 0)
        → hit ≡ one
        → old ≡ one
        → both ≡ a + (old + b)
        → rest ≡ a + b
        → free + both ≡ n
        → whole + rest ≡ n
    moved whole free hit one old a b n both rest p q r s t u = omega arith
