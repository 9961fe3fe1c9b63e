-- ===== src/Stock/Lookup.antt =====
-- The table as a map from keys to objects.
use librascal.Prelude.{
  ℕ, ◌+◌, ◌%◌, ◌^◌, ◌<◌, ◌≡◌, ◌≢◌, refl, ap, sym, ◌∙◌, Bool, true, false, Option, none, some, List,
  get_elem?, set, replicate, ◌==◌, if◌then◌else◌, inl, inr, ◌⊎◌, arith, Option-cases, Bool-cases,
  get_elem?-set_ne, get_elem?-set_self, get_elem?-append, get_elem?-replicate,
}
use librascal.Stock.{Slot, Stock, no_id, grow, next_seed, occupy, find, get}
use librascal.Stock.Valid.{Unused, place_lem, occupy_key}

-- Whether there is a value.
abbrev pub is_some {ℓ} : {A : Type ℓ} → Option A → Bool
is_some none = false
is_some (some a) = true

module _ {ℓ} {A : Type ℓ} where
  -- What a slot answers to a key.
  unfoldable pub slot_answer : Option (Slot A) → ℕ → Option A
  slot_answer none key = none
  slot_answer (some slot) key = if slot.id == key then some slot.body else none

  pub get_lem :
      (s : Stock A) (key : ℕ)
      → s.rnd_seed ≡ 0
      → get s key ≡ slot_answer (get_elem? s.slots (key % 2 ^ 16)) key
  unfolding get find slot_answer
  get_lem s key e =
      let q = place_lem s key e in
      elim (Option-cases (get_elem? s.slots (key % 2 ^ 16))) [
        | inl z ↦ rw (q, get, find) (rw z)
        | inr (slot, z) ↦
            rw (q, get, find)
              (rw z (elim (Bool-cases (slot.id == key)) [ inl y ↦ rw y | inr y ↦ rw y ]))
      ]

  pub answer_unused :
      (o : Option (Slot A)) (key : ℕ)
      → ((o ≡ none) ⊎ ((b : Slot A) × (o ≡ some b) × (b.id ≡ no_id)))
      → key ≢ no_id
      → slot_answer o key ≡ none
  unfolding slot_answer
  answer_unused o key (inl e) h = rw e
  answer_unused o key (inr (b, e, z)) h = rw e (ground arith)

  pub get-occupy :
      (obj : A) (s : Stock A) (i : ℕ) (rest : List ℕ) (j : ℕ)
      → s.rnd_seed ≡ 0
      → i < 2 ^ 16
      → Unused s.slots i
      → j ≢ no_id
      → get (occupy obj s i rest).1 j ≡ (if j == (occupy obj s i rest).0 then some obj else get s j)
  unfolding occupy
  get-occupy obj s i rest j e h (old, o, z) ne =
      let out = occupy obj s i rest in
      let slot : Slot A = record { id = out.0; body = obj } in
      let k = occupy_key obj s i rest e h in
      let l = get_lem out.1 j e in
      elim (Bool-cases (j % 2 ^ 16 == i)) [
        | inl y ↦
            let p : j % 2 ^ 16 ≡ i = ground arith in
            let g : get s j ≡ none =
              get_lem s j e
              ∙ ap (λ n. slot_answer (get_elem? s.slots n) j) p
              ∙ answer_unused (get_elem? s.slots i) j (inr (old, o, z)) ne in
            l
            ∙ ap (λ n. slot_answer (get_elem? (set s.slots i slot) n) j) p
            ∙ ap (λ o. slot_answer o j) (get_elem?-set_self s.slots i slot old o)
            ∙ rw g (flip out.0 j)
        | inr y ↦
            let p : i ≢ j % 2 ^ 16 = ground arith in
            let q : (j == out.0) ≡ false = ne_key k p in
            l
            ∙ ap (λ o. slot_answer o j) (get_elem?-set_ne s.slots i (j % 2 ^ 16) slot p)
            ∙ sym (get_lem s j e)
            ∙ rw q refl
      ]
    where
      flip :
          (a b : ℕ)
          → slot_answer (some (record { id = a; body = obj })) b
            ≡ (if b == a then some obj else none)
      flip a b = unfold slot_answer in ground arith

      ne_key : {key : ℕ} → key ≡ next_seed s.idx_seed + i → i ≢ j % 2 ^ 16 → (j == key) ≡ false
      ne_key k p = ground arith

  pub get-grow :
      (found : A) (s : Stock A) (j : ℕ)
      → s.rnd_seed ≡ 0
      → j ≢ no_id
      → get (grow found s) j ≡ get s j
  unfolding grow slot_answer
  get-grow found s j e ne =
      let n = j % 2 ^ 16 in
      let blank : Slot A = record { id = no_id; body = found } in
      get_lem (grow found s) j e
      ∙ elim (Option-cases (get_elem? s.slots n)) [
        | inr (slot, z) ↦
            ap (λ o. slot_answer o j)
              (get_elem?-append s.slots (replicate s.pagesize blank) n slot z ∙ sym z)
        | inl z ↦ elim (get_elem?-replicate s.slots s.pagesize blank n z) [
          | inl y ↦ ap (λ o. slot_answer o j) (y ∙ sym z)
          | inr y ↦ answer_unused _ j (inr (blank, y, refl)) ne ∙ ap (λ o. slot_answer o j) (sym z)
        ]
      ]
      ∙ sym (get_lem s j e)
