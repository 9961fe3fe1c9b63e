-- ===== src/Chain/Line/Find.antt =====
-- The search for the end of the line, against the bytes that the chain holds.
use librascal.Prelude.{
  ℕ, zero, suc, ◌+◌, ◌-◌, ◌≤◌, ◌<◌, ◌≡◌, refl, ap, sym, ◌∙◌, inl, inr, Option, none, some, List, [],
  ◌∷◌, ◌++◌, length, Option-cases, ◌==◌, if◌then◌else◌, arith,
}
use librascal.Chain.Item.{DataChainItem, slice, live, length-slice}
use librascal.Chain.Valid.{live_bytes}
use librascal.Chain.Line.{lf, eol_in, find_eol}

abbrev pub shift : ℕ → Option ℕ → Option ℕ
shift n none = none
shift n (some k) = some (n + k)

-- The bytes of the first line with its '\n'.
unfoldable pub line_end : List ℕ → Option ℕ
line_end [] = none
line_end (x ∷ xs) = let rest = shift 1 (line_end xs) in if x == lf then some 1 else rest

shift-shift : (m n : ℕ) (o : Option ℕ) → shift m (shift n o) ≡ shift (m + n) o
shift-shift m n none = refl
shift-shift m n (some k) = let e : m + (n + k) ≡ m + n + k = omega arith in ap some e

eol_in-line_end : (f : ℕ → ℕ) (i n : ℕ) → eol_in f i n ≡ line_end (slice f i n)
unfolding eol_in line_end
eol_in-line_end f i zero = refl
eol_in-line_end f i (suc n) = ground (arith, eol_in-line_end f (suc i) n)

-- Where the line ends in a text that is put together.
pub line_end-append :
    (xs ys : List ℕ)
    → line_end (xs ++ ys)
      ≡ (elim (line_end xs) [ none ↦ shift (length xs) (line_end ys) | some k ↦ some k ])
unfolding line_end
line_end-append [] ys = go (line_end ys)
  where
    go : (o : Option ℕ) → o ≡ shift 0 o
    go none = refl
    go (some k) = let e : k ≡ 0 + k = omega arith in ap some e
line_end-append (x ∷ xs) ys = ground (arith, line_end-append xs ys)

pub line_end-le : (xs : List ℕ) (k : ℕ) → line_end xs ≡ some k → k ≤ length xs
unfolding line_end
line_end-le [] k e = cc
line_end-le (x ∷ xs) k e = elim (Option-cases (line_end xs)) [
  | inl z ↦ ground arith
  | inr (j, z) ↦ ground (arith, line_end-le xs j z)
]

pub find_eol-line_end :
    (items : List DataChainItem) (count : ℕ)
    → find_eol items count ≡ shift count (line_end (live_bytes items))
unfolding find_eol
find_eol-line_end [] count = unfold line_end in refl
find_eol-line_end (it ∷ items) count =
    let n = it.used - it.dead in
    let l = length-slice it.bytes it.dead n in
    rw (eol_in-line_end it.bytes it.dead n, find_eol)
      (rw (line_end-append (live it) (live_bytes items)) (elim (Option-cases (line_end (live it))) [
        | inl z ↦
            rw (z, l)
              (find_eol-line_end items (count + n)
                ∙ sym (shift-shift count n (line_end (live_bytes items))))
        | inr (k, z) ↦ rw z
      ]))

-- A line that goes beyond `xs` ends in what follows.
pub line_end-beyond :
    (xs ys : List ℕ) (k : ℕ)
    → line_end (xs ++ ys) ≡ some k
    → length xs < k
    → line_end ys ≡ some (k - length xs)
line_end-beyond xs ys k e h = elim (Option-cases (line_end xs)) [
  | inr (j, z) ↦ ground (arith, line_end-le xs j z, line_end-append xs ys)
  | inl z ↦ elim (Option-cases (line_end ys)) [
    | inl y ↦ ground (arith, line_end-append xs ys)
    | inr (j, y) ↦ ground (arith, line_end-append xs ys)
  ]
]
