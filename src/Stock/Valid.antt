-- ===== src/Stock/Valid.antt =====
-- The invariant of the table: what `ptr_free` holds are the unused slots, each once.
use Prim.Native.Nat.{bit_or, bit_xor}
use librascal.Prelude.{
  ℕ, zero, suc, ◌+◌, ◌/◌, ◌%◌, ◌^◌, ◌≤◌, ◌<◌, ◌≡◌, ◌≢◌, refl, ap, sym, ◌∙◌, some, List, [], ◌∷◌,
  ◌++◌, length, get_elem?, set, replicate, All, ◌==◌, inl, inr, arith, Option-cases, Bool-cases,
  length-set, length-append, length-replicate, get_elem?-set_ne, get_elem?-set_self,
  get_elem?-replicate_in,
}
use librascal.Prelude.Bits.{bit_or_disjoint, bit_xor-zero}
use librascal.Stock.{
  Slot, Stock, no_id, push_indexes, grow, next_seed, occupy, place, find, remove, new_stock,
}

abbrev pub Unused {ℓ} : {A : Type ℓ} → List (Slot A) → ℕ → Type ℓ
Unused {A} slots i = (slot : Slot A) × (get_elem? slots i ≡ some slot) × (slot.id ≡ no_id)

abbrev pub Distinct : List ℕ → Type 0
Distinct [] = Unit
Distinct (i ∷ is) = All (λ j. i ≢ j) is × Distinct is

module _ {ℓ} {A : Type ℓ} where
  pub record IsStock (s : Stock A) : Type ℓ where
    pub plain : s.rnd_seed ≡ 0
    pub paged : 0 < s.pagesize
    pub small : length s.slots ≤ 2 ^ 16
    pub unused : All (Unused s.slots) s.free
    pub distinct : Distinct s.free

  -- A table that has just been made is valid, whatever its seed was.
  pub new_stock-IsStock : (pgsz found : ℕ) → 0 < pgsz → IsStock (new_stock pgsz found)
  unfolding new_stock
  new_stock-IsStock pgsz found h = record {
    plain = refl;
    paged = h;
    small = omega arith;
    unused = tt;
    distinct = tt;
  }

  pub Unused-below : (slots : List (Slot A)) (i : ℕ) → Unused slots i → i < length slots
  Unused-below [] i (slot, e, z) = cc
  Unused-below (x ∷ slots) zero u = omega arith
  Unused-below (x ∷ slots) (suc i) u = omega (arith, Unused-below slots i u)

  Unused-set :
      (slots : List (Slot A)) (i : ℕ) (v : Slot A) (js : List ℕ)
      → All (λ j. i ≢ j) js
      → All (Unused slots) js
      → All (Unused (set slots i v)) js
  Unused-set slots i v [] d u = tt
  Unused-set slots i v (j ∷ js) d ((slot, e, z), u) =
      ((slot, get_elem?-set_ne slots i j v d.0 ∙ e, z), Unused-set slots i v js d.1 u)

  pub place_lem : (s : Stock A) (j : ℕ) → s.rnd_seed ≡ 0 → place s j ≡ j % 2 ^ 16
  place_lem s j e = rw (e, bit_xor-zero j)

  -- The key of a slot: its index in the low half, the seed in the high half, no sign bit.
  pub occupy_key :
      (obj : A) (s : Stock A) (i : ℕ) (rest : List ℕ)
      → s.rnd_seed ≡ 0
      → i < 2 ^ 16
      → (occupy obj s i rest).0 ≡ next_seed s.idx_seed + i
  unfolding occupy
  occupy_key obj s i rest e h =
      rw (e, bit_or_disjoint 16 ((s.idx_seed + 2 ^ 16) / 2 ^ 16 % 2 ^ 15) i h)
        (bit_xor-zero (next_seed s.idx_seed + i))

  pub occupy-IsStock :
      (obj : A) (s : Stock A) (i : ℕ) (rest : List ℕ)
      → IsStock s
      → s.free ≡ i ∷ rest
      → IsStock (occupy obj s i rest).1
  unfolding occupy
  occupy-IsStock obj s i rest v e = record {
    plain = v.plain;
    paged = v.paged;
    small = omega (arith, v.small, length-set s.slots i slot);
    unused = Unused-set s.slots i slot rest d.0 u.1;
    distinct = d.1;
  }
    where
      u : All (Unused s.slots) (i ∷ rest)
      u = rw e at v.unused

      d : Distinct (i ∷ rest)
      d = rw e at v.distinct

      slot : Slot A
      slot = record { id = bit_xor (bit_or (next_seed s.idx_seed) i) s.rnd_seed; body = obj }

push_indexes-All {κ} :
    (P : ℕ → Type κ) (i n : ℕ) (free : List ℕ)
    → ((k : ℕ) → i ≤ k → k < i + n → P k)
    → All P free
    → All P (push_indexes i n free)
unfolding push_indexes
push_indexes-All P i zero free h f = f
push_indexes-All P i (suc n) free h f =
    push_indexes-All P (suc i) n (i ∷ free) (λ k p q. h k (omega arith) (omega arith))
      (h i (omega arith) (omega arith), f)

All-weaken : (i : ℕ) (free : List ℕ) → All (λ k. k < i) free → All (λ k. k < suc i) free
All-weaken i [] f = tt
All-weaken i (k ∷ free) f = (omega (arith, f.0), All-weaken i free f.1)

All-ne : (i : ℕ) (free : List ℕ) → All (λ k. k < i) free → All (λ j. i ≢ j) free
All-ne i [] f = tt
All-ne i (k ∷ free) f = (omega (arith, f.0), All-ne i free f.1)

push_indexes-Distinct :
    (i n : ℕ) (free : List ℕ)
    → All (λ k. k < i) free
    → Distinct free
    → Distinct (push_indexes i n free)
unfolding push_indexes
push_indexes-Distinct i zero free f d = d
push_indexes-Distinct i (suc n) free f d =
    push_indexes-Distinct (suc i) n (i ∷ free) (omega arith, All-weaken i free f)
      (All-ne i free f, d)

push_indexes-ne-nil :
    (i n : ℕ) (free : List ℕ) → 0 < n → (k : ℕ) × (ks : List ℕ) × (push_indexes i n free ≡ k ∷ ks)
unfolding push_indexes
push_indexes-ne-nil i zero free h = absurd (omega arith)
push_indexes-ne-nil i (suc zero) free h = (i, free, refl)
push_indexes-ne-nil i (suc (suc n)) free h =
    push_indexes-ne-nil (suc i) (suc n) (i ∷ free) (omega arith)

module _ {ℓ} {A : Type ℓ} where
  pub grow-IsStock :
      (found : A) (s : Stock A)
      → IsStock s
      → s.free ≡ []
      → length s.slots + s.pagesize ≤ 2 ^ 16
      → IsStock (grow found s)
  unfolding grow
  grow-IsStock found s v e h = rw e (record {
    plain = v.plain;
    paged = v.paged;
    small = omega (
      arith,
      length-append s.slots (replicate s.pagesize blank),
      length-replicate s.pagesize blank,
    );
    unused =
        push_indexes-All (Unused (s.slots ++ replicate s.pagesize blank)) (length s.slots)
          s.pagesize []
          (λ k p q. (blank, get_elem?-replicate_in s.slots s.pagesize blank k p q, refl)) tt;
    distinct = push_indexes-Distinct (length s.slots) s.pagesize [] tt tt;
  })
    where
      blank : Slot A
      blank = record { id = no_id; body = found }

  -- After the table has grown there is an unused slot.
  pub grow_free :
      (found : A) (s : Stock A)
      → 0 < s.pagesize
      → (i : ℕ) × (rest : List ℕ) × ((grow found s).free ≡ i ∷ rest)
  unfolding grow
  grow_free found s h = push_indexes-ne-nil (length s.slots) s.pagesize s.free h

  -- The slots of unused indexes are not the one of a key in use.
  Unused-used :
      (slots : List (Slot A)) (i : ℕ) (slot : Slot A) (js : List ℕ)
      → get_elem? slots i ≡ some slot
      → slot.id ≢ no_id
      → All (Unused slots) js
      → All (λ j. i ≢ j) js
  Unused-used slots i slot [] e h u = tt
  Unused-used slots i slot (j ∷ js) e h ((w, f, z), u) = (
    (λ q. h (some-injective_id (sym e ∙ ap (get_elem? slots) q ∙ f) ∙ z)),
    Unused-used slots i slot js e h u,
  )
    where
      some-injective_id : {x y : Slot A} → some x ≡ some y → x.id ≡ y.id
      some-injective_id p = cc

  release-IsStock :
      (s : Stock A) (i : ℕ) (slot : Slot A)
      → IsStock s
      → get_elem? s.slots i ≡ some slot
      → slot.id ≢ no_id
      → IsStock (record s { slots = set s.slots i (record slot { id = no_id }); free = i ∷ s.free })
  release-IsStock s i slot v e h =
      let d = Unused-used s.slots i slot s.free e h v.unused in
      record {
        plain = v.plain;
        paged = v.paged;
        small = omega (arith, v.small, length-set s.slots i (record slot { id = no_id }));
        unused = (
          (record slot { id = no_id }, get_elem?-set_self s.slots i _ slot e, refl),
          Unused-set s.slots i (record slot { id = no_id }) s.free d v.unused,
        );
        distinct = (d, v.distinct);
      }

  pub remove-IsStock : (s : Stock A) (idx : ℕ) → idx ≢ no_id → IsStock s → IsStock (remove s idx).1
  unfolding remove find
  remove-IsStock s idx h v = elim (Option-cases (get_elem? s.slots (place s idx))) [
    | inl e ↦ rw (e, remove, find) v
    | inr (slot, e) ↦ elim (Bool-cases (slot.id == idx)) [
      | inr z ↦ rw (e, remove, find) (rw z v)
      | inl z ↦
          let used : slot.id ≢ no_id = ground arith in
          let q : place s idx ≡ idx % 2 ^ 16 = place_lem s idx v.plain in
          rw (e, remove, find)
            (rw (z, q)
              (release-IsStock s (idx % 2 ^ 16) slot v (ap (get_elem? s.slots) (sym q) ∙ e) used))
    ]
  ]
