-- ===== src/Chain/Item.antt =====
-- `datachainitem` of common/datachain.h and common/datachainitem.cc.
use librascal.Prelude.{
  ℕ, zero, suc, ◌+◌, ◌-◌, ◌≤◌, ◌≡◌, refl, ap, ap₂, ◌∙◌, min, List, [], ◌∷◌, ◌++◌, length, take,
  drop, ◌==◌, if◌then◌else◌, arith,
}

-- `sizeof(datachainitem::data)`
abbrev pub capacity : ℕ
capacity = 2048

-- `bytes i` is `data[i]`; from `capacity` on it is what stands behind the array in memory.
pub record DataChainItem : Type 0 where
  pub used : ℕ
  pub dead : ℕ
  pub bytes : ℕ → ℕ

abbrev pub update : (ℕ → ℕ) → ℕ → ℕ → ℕ → ℕ
update f i v j = if j == i then v else f j

-- The constructor: the array keeps what the memory held.
abbrev pub new_item : (ℕ → ℕ) → DataChainItem
new_item memory = record { used = 0; dead = 0; bytes = memory }

-- The n bytes from i on.
abbrev pub slice : (ℕ → ℕ) → ℕ → ℕ → List ℕ
slice f i zero = []
slice f i (suc n) = f i ∷ slice f (suc i) n

pub length-slice : (f : ℕ → ℕ) (i n : ℕ) → length (slice f i n) ≡ n
length-slice f i zero = refl
length-slice f i (suc n) = ap suc (length-slice f (suc i) n)

-- The bytes of an item that are written and not yet removed.
abbrev pub live : DataChainItem → List ℕ
live it = slice it.bytes it.dead (it.used - it.dead)

pub record IsItem (it : DataChainItem) : Type 0 where
  pub dead_in : it.dead ≤ it.used
  pub used_in : it.used ≤ capacity

pub slice-snoc : (f : ℕ → ℕ) (i n : ℕ) → slice f i (suc n) ≡ slice f i n ++ f (i + n) ∷ []
slice-snoc f i zero = let e : i ≡ i + 0 = omega arith in ap (λ k. f k ∷ []) e
slice-snoc f i (suc n) =
    let e : suc i + n ≡ i + suc n = omega arith in
    ap (◌∷◌ (f i)) (slice-snoc f (suc i) n ∙ ap (λ k. slice f (suc i) n ++ f k ∷ []) e)

pub slice-update : (f : ℕ → ℕ) (i n j v : ℕ) → i + n ≤ j → slice (update f j v) i n ≡ slice f i n
slice-update f i zero j v h = refl
slice-update f i (suc n) j v h = ap₂ ◌∷◌ (ground arith) (slice-update f (suc i) n j v (omega arith))

pub slice-take : (f : ℕ → ℕ) (i n k : ℕ) → slice f i (min n k) ≡ take k (slice f i n)
slice-take f i zero zero = refl
slice-take f i (suc n) zero = let e : min (suc n) 0 ≡ 0 = omega arith in ap (slice f i) e
slice-take f i zero (suc k) = let e : min 0 (suc k) ≡ 0 = omega arith in ap (slice f i) e
slice-take f i (suc n) (suc k) =
    let e : min (suc n) (suc k) ≡ suc (min n k) = omega arith in
    ap (slice f i) e ∙ ap (◌∷◌ (f i)) (slice-take f (suc i) n k)

pub slice-drop :
    (f : ℕ → ℕ) (i n k : ℕ) → slice f (i + min k n) (n - min k n) ≡ drop k (slice f i n)
slice-drop f i n zero =
    let e : i + min 0 n ≡ i = omega arith in let d : n - min 0 n ≡ n = omega arith in rw (e, d)
slice-drop f i zero (suc k) = let d : 0 - min (suc k) 0 ≡ 0 = omega arith in rw d
slice-drop f i (suc n) (suc k) =
    let e : i + min (suc k) (suc n) ≡ suc i + min k n = omega arith in
    let d : suc n - min (suc k) (suc n) ≡ n - min k n = omega arith in
    rw (e, d) (slice-drop f (suc i) n k)
