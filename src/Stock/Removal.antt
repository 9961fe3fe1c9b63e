-- ===== src/Stock/Removal.antt =====
-- What `remove` does to the table as a map from keys to objects.
use librascal.Prelude.{
  ℕ, ◌%◌, ◌^◌, ◌≡◌, ◌≢◌, refl, ap, sym, ◌∙◌, Bool, true, false, none, some, ◌∷◌, get_elem?, set,
  ◌==◌, if◌then◌else◌, inl, inr, arith, Option-cases, Bool-cases, ==_iff, get_elem?-set_ne,
  get_elem?-set_self,
}
use librascal.Stock.{Slot, Stock, no_id, find, get, remove}
use librascal.Stock.Valid.{IsStock, place_lem, remove-IsStock}
use librascal.Stock.Lookup.{is_some, slot_answer, get_lem, answer_unused}

module _ {ℓ} {A : Type ℓ} where
  -- The table after the slot of a key is given back.
  released : Stock A → ℕ → Slot A → Stock A
  released s i slot = record s {
    slots = set s.slots i (record slot { id = no_id });
    free = i ∷ s.free;
  }

  remove_miss :
      (s : Stock A) (key : ℕ)
      → s.rnd_seed ≡ 0
      → get_elem? s.slots (key % 2 ^ 16) ≡ none
      → remove s key ≡ (false, s)
  unfolding remove find
  remove_miss s key e z = let q = place_lem s key e in rw (q, remove, find) (rw z refl)

  remove_other :
      (s : Stock A) (key : ℕ) (slot : Slot A)
      → s.rnd_seed ≡ 0
      → get_elem? s.slots (key % 2 ^ 16) ≡ some slot
      → (slot.id == key) ≡ false
      → remove s key ≡ (false, s)
  unfolding remove find
  remove_other s key slot e z y =
      let q = place_lem s key e in rw (q, remove, find) (rw z (rw y refl))

  remove_hit :
      (s : Stock A) (key : ℕ) (slot : Slot A)
      → s.rnd_seed ≡ 0
      → get_elem? s.slots (key % 2 ^ 16) ≡ some slot
      → (slot.id == key) ≡ true
      → remove s key ≡ (true, released s (key % 2 ^ 16) slot)
  unfolding remove find released
  remove_hit s key slot e z y =
      let q = place_lem s key e in rw (q, remove, find) (rw z (rw y (rw q refl)))

  -- What `remove` gives, seen at a key j.
  abbrev pub Removed : Stock A → ℕ → ℕ → Bool × Stock A → Type ℓ
  Removed s key j res =
      (res.0 ≡ is_some (get s key))
      × IsStock res.1
      × (get res.1 j ≡ (if j == key then none else get s j))

  kept : (s : Stock A) (key j : ℕ) → IsStock s → get s key ≡ none → Removed s key j (false, s)
  kept s key j v e = (
    rw e refl,
    v,
    elim (Bool-cases (j == key)) [
      | inr y ↦ rw y refl
      | inl y ↦ rw y (ap (get s) ((==_iff j key).0 y) ∙ e)
    ],
  )

  get-released :
      (s : Stock A) (key j : ℕ) (slot : Slot A)
      → s.rnd_seed ≡ 0
      → get_elem? s.slots (key % 2 ^ 16) ≡ some slot
      → (slot.id == key) ≡ true
      → j ≢ no_id
      → get (released s (key % 2 ^ 16) slot) j ≡ (if j == key then none else get s j)
  unfolding released
  get-released s key j slot e z y ne =
      let l = get_lem (released s (key % 2 ^ 16) slot) j e in
      let blank : Slot A = record slot { id = no_id } in
      elim (Bool-cases (j % 2 ^ 16 == key % 2 ^ 16)) [
        | inl w ↦
            let p : j % 2 ^ 16 ≡ key % 2 ^ 16 = ground arith in
            let a : get (released s (key % 2 ^ 16) slot) j ≡ none =
              l
              ∙ ap (λ n. slot_answer (get_elem? (set s.slots (key % 2 ^ 16) blank) n) j) p
              ∙ answer_unused _ j (inr (blank, get_elem?-set_self s.slots _ blank slot z, refl))
                  ne in
            a ∙ elim (Bool-cases (j == key)) [
              | inl x ↦ rw x refl
              | inr x ↦ rw x (
                  sym (
                    get_lem s j e
                    ∙ ap (λ n. slot_answer (get_elem? s.slots n) j) p
                    ∙ ap (λ o. slot_answer o j) z
                    ∙ miss slot x))
            ]
        | inr w ↦
            let p : key % 2 ^ 16 ≢ j % 2 ^ 16 = ground arith in
            let x : (j == key) ≡ false = ground arith in
            l
            ∙ ap (λ o. slot_answer o j) (get_elem?-set_ne s.slots _ (j % 2 ^ 16) blank p)
            ∙ sym (get_lem s j e)
            ∙ rw x refl
      ]
    where
      miss : (b : Slot A) → (j == key) ≡ false → slot_answer (some slot) j ≡ none
      miss b x = let n : (slot.id == j) ≡ false = ground arith in unfold slot_answer in rw n refl

  -- At a valid table `remove` returns whether the key was held; after it the table is valid, holds
  -- nothing under that key, and what it held under any other key j.
  pub get-remove :
      (s : Stock A) (key j : ℕ)
      → IsStock s
      → key ≢ no_id
      → j ≢ no_id
      → Removed s key j (remove s key)
  unfolding slot_answer
  get-remove s key j v h ne =
      let l = get_lem s key v.plain in
      elim (Option-cases (get_elem? s.slots (key % 2 ^ 16))) [
        | inl z ↦
            rw (remove_miss s key v.plain z) (kept s key j v (l ∙ ap (λ o. slot_answer o key) z))
        | inr (slot, z) ↦ elim (Bool-cases (slot.id == key)) [
          | inr y ↦
              rw (remove_other s key slot v.plain z y)
                (kept s key j v (l ∙ ap (λ o. slot_answer o key) z ∙ missed slot y))
          | inl y ↦
              let r = remove-IsStock s key h v in
              let q = remove_hit s key slot v.plain z y in
              (
                ap (λ (x : Bool × Stock A). x.0) q
                    ∙ sym (ap is_some (l ∙ ap (λ o. slot_answer o key) z ∙ found slot y)),
                r,
                ap (λ (x : Bool × Stock A). get x.1 j) q ∙ get-released s key j slot v.plain z y ne,
              )
        ]
      ]
    where
      missed : (b : Slot A) → (b.id == key) ≡ false → slot_answer (some b) key ≡ none
      missed b y = rw y refl

      found : (b : Slot A) → (b.id == key) ≡ true → slot_answer (some b) key ≡ some b.body
      found b y = rw y refl
