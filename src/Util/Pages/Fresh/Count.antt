-- ===== src/Util/Pages/Fresh/Count.antt =====
-- How often a number stands in the array of indexes.
use librascal.Prelude.{
  ℕ, zero, suc, ◌+◌, ◌<◌, ◌≡◌, refl, ap, ◌∙◌, Bool, true, false, List, [], ◌∷◌, ◌++◌, length,
  length-append, take, set, get_or, ltb, ◌==◌, arith,
}
use librascal.Util.Pages.{all_indexes}

abbrev pub tally : Bool → ℕ
tally true = 1
tally false = 0

-- How often a number stands in a list.
unfoldable pub count : ℕ → List ℕ → ℕ
count x [] = 0
count x (y ∷ ys) = tally (y == x) + count x ys

pub count-append : (x : ℕ) (xs ys : List ℕ) → count x (xs ++ ys) ≡ count x xs + count x ys
unfolding count
count-append x [] ys = omega arith
count-append x (y ∷ xs) ys = go (tally (y == x)) _ _ _ (count-append x xs ys)
  where
    go : (n a b c : ℕ) → a ≡ b + c → n + a ≡ n + b + c
    go n a b c e = omega arith

abbrev pub below : ℕ → ℕ → ℕ
below x n = tally (ltb x n)

pub count-all_indexes : (x n : ℕ) → count x (all_indexes n) ≡ below x n
unfolding count all_indexes
count-all_indexes x zero = ground arith
count-all_indexes x (suc n) = count-append x (all_indexes n) (n ∷ []) ∙ go (count-all_indexes x n)
  where
    go : {a : ℕ} → a ≡ below x n → a + (tally (n == x) + 0) ≡ below x (suc n)
    go e = ground arith

pub length-all_indexes : (n : ℕ) → length (all_indexes n) ≡ n
unfolding all_indexes
length-all_indexes zero = refl
length-all_indexes (suc n) =
    let e = length-all_indexes n in let l = length-append (all_indexes n) (n ∷ []) in omega arith

pub take-suc :
    (n : ℕ) (xs : List ℕ) → n < length xs → take (suc n) xs ≡ take n xs ++ get_or xs n 0 ∷ []
take-suc n [] h = absurd (omega arith)
take-suc zero (x ∷ xs) h = refl
take-suc (suc n) (x ∷ xs) h = ap (λ l. x ∷ l) (take-suc n xs (omega arith))

pub take-set :
    (n : ℕ) (xs : List ℕ) (v : ℕ) → n < length xs → take (suc n) (set xs n v) ≡ take n xs ++ v ∷ []
take-set n [] v h = absurd (omega arith)
take-set zero (x ∷ xs) v h = refl
take-set (suc n) (x ∷ xs) v h = ap (λ l. x ∷ l) (take-set n xs v (omega arith))
