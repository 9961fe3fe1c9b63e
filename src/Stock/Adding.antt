-- ===== src/Stock/Adding.antt =====
-- What `add` does to the table.
use librascal.Prelude.{
  ℕ, ◌^◌, ◌<◌, ◌≡◌, not, ◌&&◌, Bool, false, Option, none, some, List, [], ◌∷◌, length, ◌==◌,
  if◌then◌else◌, ◌⊎◌,
}
use librascal.Stock.{Stock, no_id, grow, occupy, refuse, get}
use librascal.Stock.Valid.{IsStock}

module _ {ℓ} {A : Type ℓ} where
  -- How `add` ends, seen at a key j: a refusal with the table unchanged, or with an array lost, or
  -- a new key for the object.
  abbrev pub Outcome :
      Stock A
      → (data_grows free_grows : Bool) → (obj : A) → (j key : ℕ) → (after : Option (Stock A))
      → Type ℓ
  Outcome s data_grows free_grows obj j key after =
      ((key ≡ no_id)
        × (s.free ≡ [])
        × (after ≡ some s)
        × (((data_grows ≡ false) × (free_grows ≡ false)) ⊎ (s.slots ≡ [])))
      ⊎ ((key ≡ no_id)
          × (s.free ≡ [])
          × (after ≡ none)
          × (data_grows ≡ not free_grows)
          × (0 < length s.slots))
      ⊎ ((t : Stock A) × (after ≡ some t)
          × IsStock t
          × (key < 2 ^ 31)
          × (get t j ≡ (if j == key then some obj else get s j)))

  pub record Added (s : Stock A) (data_grows free_grows : Bool) (obj : A) (j : ℕ)
      (res : Option (ℕ × Option (Stock A))) : Type ℓ where
    pub key : ℕ
    pub after : Option (Stock A)
    pub returns : res ≡ some (key, after)
    pub outcome : Outcome s data_grows free_grows obj j key after

  -- The three ways through `add`, on the unused slots.
  abbrev taken :
      A → Stock A → Option (ℕ × Option (Stock A)) → List ℕ → Option (ℕ × Option (Stock A))
  taken obj t other free = elim free [
    | i ∷ rest ↦ some ((occupy obj t i rest).0, some (occupy obj t i rest).1)
    | [] ↦ other
  ]

  abbrev none_free : Bool → Bool → A → A → Stock A → Option (ℕ × Option (Stock A))
  none_free data_grows free_grows found obj s =
      if data_grows && free_grows
      then taken obj (grow found s) none (grow found s).free
      else some (no_id, refuse data_grows free_grows s)
