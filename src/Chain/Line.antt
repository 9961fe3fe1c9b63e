-- ===== src/Chain/Line.antt =====
-- `datachain::gets` of common/datachain.cc: a line of text off the chain.
pub mod Find
pub mod Copy
use Prim.Native.Nat.{bit_and}
use librascal.Prelude.{
  ℕ, zero, suc, ◌+◌, ◌-◌, ◌%◌, ◌^◌, min, Bool, true, false, ◌||◌, ◌&&◌, not, Option, none, some,
  List, [], ◌∷◌, ◌++◌, length, ◌==◌, if◌then◌else◌,
}
use librascal.Chain.{DataChain, remove}
use librascal.Chain.Item.{DataChainItem, slice}

-- '\n' and '\r'
abbrev pub lf : ℕ
lf = 10

abbrev pub cr : ℕ
cr = 13

-- `RRF_PEEK`, `RRF_MEASURE`, `RRF_UNTRIMMED` of rascal.h
abbrev pub rrf_peek : ℕ
rrf_peek = 1

abbrev pub rrf_measure : ℕ
rrf_measure = 2

abbrev pub rrf_untrimmed : ℕ
rrf_untrimmed = 16

abbrev pub has_flag : ℕ → ℕ → Bool
has_flag flags f = not (bit_and flags f == 0)

-- The bytes up to the first '\n' and with it, of the n from i on; `none` if there is no '\n'.
unfoldable pub eol_in : (ℕ → ℕ) → ℕ → ℕ → Option ℕ
eol_in f i zero = none
eol_in f i (suc n) =
    let rest : Option ℕ = elim (eol_in f (suc i) n) [ none ↦ none | some k ↦ some (suc k) ] in
    if f i == lf then some 1 else rest

-- The search for an EOL character over the items, with the bytes passed so far.
unfoldable pub find_eol : List DataChainItem → ℕ → Option ℕ
find_eol [] count = none
find_eol (it ∷ items) count = elim (eol_in it.bytes it.dead (it.used - it.dead)) [
  | none ↦ find_eol items (count + (it.used - it.dead))
  | some k ↦ some (count + k)
]

-- How many bytes the inner copy loop takes from an item.
abbrev pub copied : DataChainItem → ℕ → ℕ → ℕ
copied it size count = min (min (it.used - it.dead) size) count

-- The copy loop: what it writes to `dst`. The test `*src == '\n'` after the inner loop reads the
-- byte that `src` has come to, which at the end of an item is the one behind its last.
unfoldable pub copy_line : List DataChainItem → ℕ → ℕ → List ℕ
copy_line [] size count = []
copy_line (it ∷ items) size count =
    let n = copied it size count in
    let rest = copy_line items (size - n) (count - n) in
    let more = if it.bytes (it.dead + n) == lf then [] else rest in
    if size == 0 then [] else slice it.bytes it.dead n ++ more

-- `while (dst != origin && (dst[-1] == '\r' || dst[-1] == '\n')) --dst, ++size;`
unfoldable pub strip_eol : List ℕ → List ℕ
strip_eol [] = []
strip_eol (x ∷ xs) = elim (strip_eol xs) [
  | [] ↦ if (x == cr) || (x == lf) then [] else x ∷ []
  | y ∷ ys ↦ x ∷ y ∷ ys
]

-- `--dst`
unfoldable pub drop_last : List ℕ → List ℕ
drop_last [] = []
drop_last (x ∷ []) = []
drop_last (x ∷ y ∷ xs) = x ∷ drop_last (y ∷ xs)

-- `if (size == 0 && dst != origin) --dst, ++size;`: room for the final zero is made if need be.
unfoldable pub fit : ℕ → List ℕ → List ℕ
fit size out = if length out == size then drop_last out else out

-- REC_NO_DATA; a length; or the text written, whose length is the new `size`, with whether the
-- zero byte was written behind it.
pub data Line : Type 0 where
  no_data : Line
  measured : ℕ → Line
  text : List ℕ → Bool → Line

abbrev pub trimmed : ℕ → List ℕ → List ℕ
trimmed flags out = if has_flag flags rrf_untrimmed then out else strip_eol out

abbrev pub written : ℕ → ℕ → List ℕ → Line
written size flags out = let s = fit size (trimmed flags out) in text s (not (length s == size))

unfoldable pub gets : DataChain → ℕ → ℕ → Line × DataChain
gets c size flags = elim (find_eol c.items 0) [
  | none ↦ (no_data, c)
  | some k ↦
      let count = k % 2 ^ 32 in
      if has_flag flags rrf_measure then (measured count, c) else (
        written size flags (copy_line c.items size count),
        (if has_flag flags rrf_peek then c else remove c count),
      )
]
