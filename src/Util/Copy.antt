-- ===== src/Util/Copy.antt =====
-- common/util/strlcpy.cc and common/util/strlcpya.cc. A text is the list of its bytes before the
-- zero byte.
pub mod Bounds
use librascal.Prelude.{ℕ, zero, suc, Option, none, some, List, [], ◌∷◌, ◌++◌}

-- The copy loop: what is written, and the room left.
unfoldable pub copy_loop : List ℕ → ℕ → List ℕ × ℕ
copy_loop [] size = ([], size)
copy_loop (b ∷ bs) zero = ([], zero)
copy_loop (b ∷ bs) (suc size) = let rest = copy_loop bs size in (b ∷ rest.0, rest.1)

-- All but the last byte; `none` is a write before the buffer.
unfoldable pub step_back : List ℕ → Option (List ℕ)
step_back [] = none
step_back (b ∷ []) = some []
step_back (b ∷ c ∷ bs) = elim (step_back (c ∷ bs)) [ none ↦ none | some l ↦ some (b ∷ l) ]

-- `if (size == 0) --dst; *dst = 0;`: the text that the buffer holds.
abbrev pub terminate : List ℕ → ℕ → Option (List ℕ)
terminate out zero = step_back out
terminate out (suc size) = some out

unfoldable pub strlcpy : List ℕ → ℕ → Option (List ℕ)
strlcpy src size = let out = copy_loop src size in terminate out.0 out.1

-- The outer loop of `strlcpya`, over its arguments up to the null pointer.
unfoldable pub copy_args : List (List ℕ) → ℕ → List ℕ × ℕ
copy_args [] size = ([], size)
copy_args (arg ∷ args) zero = ([], zero)
copy_args (arg ∷ args) (suc size) =
    let (out, left) = copy_loop arg (suc size) in
    let (out', left') = copy_args args left in (out ++ out', left')

unfoldable pub strlcpya : List (List ℕ) → ℕ → Option (List ℕ)
strlcpya args size = let out = copy_args args size in terminate out.0 out.1
