-- ===== src/Chain/Line/Copy.antt =====
-- `gets` returns the first line of the bytes that the chain holds.
use librascal.Prelude.{
  ℕ, zero, suc, ◌+◌, ◌-◌, ◌%◌, ◌^◌, ◌≤◌, ◌<◌, ◌≡◌, ◌≢◌, refl, ap, ap₂, sym, ◌∙◌, inl, inr, min,
  false, none, some, List, [], ◌∷◌, ◌++◌, length, take, drop, take-append, take_all, leb,
  append-nil, All, Bool-cases, Option-cases, ◌==◌, if◌then◌else◌, arith,
}
use librascal.Chain.{DataChain}
use librascal.Chain.Item.{DataChainItem, IsItem, slice, live, length-slice, slice-take}
use librascal.Chain.Valid.{IsChain, live_bytes, contents}
use librascal.Chain.Read.{remove-drop}
use librascal.Chain.Line.{
  Line, no_data, measured, lf, has_flag, rrf_peek, rrf_measure, copied, copy_line, written, gets,
}
use librascal.Chain.Line.Find.{line_end, line_end-le, line_end-beyond, find_eol-line_end}

-- The byte behind the last of an item is no '\n'.
abbrev pub NoStale : DataChainItem → Type 0
NoStale it = it.bytes it.used ≢ lf

-- An item after which nothing more is copied.
copy_line-here :
    (it : DataChainItem) (items : List DataChainItem) (size k : ℕ)
    → copy_line items (size - copied it size k) (k - copied it size k) ≡ []
    → copy_line (it ∷ items) size k ≡ slice it.bytes it.dead (copied it size k)
unfolding copy_line
copy_line-here it items size k e = elim (Bool-cases (size == 0)) [
  | inl z ↦ let c : copied it size k ≡ 0 = ground arith in rw (z, c)
  | inr nz ↦ elim (Bool-cases (it.bytes (it.dead + copied it size k) == lf)) [
    | inl y ↦ rw (nz, y) (append-nil _)
    | inr y ↦ rw (nz, y, e) (append-nil _)
  ]
]

copy_line-full : (items : List DataChainItem) (count : ℕ) → copy_line items 0 count ≡ []
unfolding copy_line
copy_line-full [] count = refl
copy_line-full (it ∷ items) count = refl

copy_line-none : (items : List DataChainItem) (size : ℕ) → copy_line items size 0 ≡ []
copy_line-none [] size = unfold copy_line in refl
copy_line-none (it ∷ items) size =
    let z : copied it size 0 ≡ 0 = omega arith in
    let d : 0 - copied it size 0 ≡ 0 = omega arith in
    let r = copy_line-none items (size - copied it size 0) in
    copy_line-here it items size 0 (ap (copy_line items (size - copied it size 0)) d ∙ r)
    ∙ ap (slice it.bytes it.dead) z

copy_line-nothing :
    (items : List DataChainItem) (size count : ℕ)
    → min size count ≡ 0
    → copy_line items size count ≡ []
copy_line-nothing items zero count h = copy_line-full items count
copy_line-nothing items (suc size) zero h = copy_line-none items (suc size)
copy_line-nothing items (suc size) (suc count) h = absurd (omega arith)

-- An item that the line goes beyond.
copy_line-on :
    (it : DataChainItem) (items : List DataChainItem) (size k : ℕ)
    → IsItem it
    → NoStale it
    → it.used - it.dead < min size k
    → copy_line (it ∷ items) size k
      ≡ live it ++ copy_line items (size - (it.used - it.dead)) (k - (it.used - it.dead))
unfolding copy_line
copy_line-on it items size k v s h =
    let n = it.used - it.dead in
    let c : copied it size k ≡ n = omega arith in
    let p : it.dead + n ≡ it.used = omega (arith, v.dead_in) in
    let z : (size == 0) ≡ false = ground arith in
    let y : (it.bytes it.used == lf) ≡ false = ground arith in rw (z, c, p, y)

copy_line-take :
    (items : List DataChainItem) (size k : ℕ)
    → All IsItem items
    → All NoStale items
    → line_end (live_bytes items) ≡ some k
    → copy_line items size k ≡ take (min size k) (live_bytes items)
copy_line-take [] size k v s e = unfold line_end in cc
copy_line-take (it ∷ items) size k v s e =
    elim (Bool-cases (leb (min size k) (it.used - it.dead))) [
      | inl small ↦
          let n = it.used - it.dead in
          let m = min size k in
          let l = length-slice it.bytes it.dead n in
          let h : m ≤ n = ground arith in
          let c : copied it size k ≡ min n m = omega arith in
          let t : m - length (live it) ≡ 0 = omega (arith, l) in
          copy_line-here it items size k (copy_line-nothing items _ _ (omega arith))
          ∙ ap (slice it.bytes it.dead) c
          ∙ slice-take it.bytes it.dead n m
          ∙ sym (append-nil _)
          ∙ ap (λ j. take m (live it) ++ take j (live_bytes items)) (sym t)
          ∙ sym (take-append m (live it) (live_bytes items))
      | inr large ↦
          let n = it.used - it.dead in
          let m = min size k in
          let l = length-slice it.bytes it.dead n in
          let h : n < m = ground arith in
          let f : line_end (live_bytes items) ≡ some (k - n) =
            line_end-beyond (live it) (live_bytes items) k e (omega (arith, l))
            ∙ ap (λ j. some (k - j)) l in
          let t : min (size - n) (k - n) ≡ m - length (live it) = omega (arith, l) in
          copy_line-on it items size k v.0 s.0 h
          ∙ ap₂ ◌++◌ (sym (take_all m (live it) (omega (arith, l)))) (
              copy_line-take items (size - n) (k - n) v.1 s.1 f
              ∙ ap (λ j. take j (live_bytes items)) t)
          ∙ sym (take-append m (live it) (live_bytes items))
    ]

-- `gets` as a function of the bytes held: what it reports, and the bytes that it leaves.
unfoldable pub read_line : List ℕ → ℕ → ℕ → Line × List ℕ
read_line xs size flags = elim (line_end xs) [
  | none ↦ (no_data, xs)
  | some k ↦ if has_flag flags rrf_measure then (measured k, xs) else (
    written size flags (take (min size k) xs),
    (if has_flag flags rrf_peek then xs else drop k xs),
  )
]

-- At a valid chain of less than 2^32 bytes, with no '\n' behind the last byte of an item, `gets`
-- reports what `read_line` reports of the bytes held, and leaves a valid chain with the bytes that
-- `read_line` leaves: REC_NO_DATA if no '\n' is held; the length of the line for RRF_MEASURE;
-- else the line cut to `size` bytes, which is taken off whole but under RRF_PEEK.
pub gets_refines :
    (c : DataChain) (size flags : ℕ)
    → IsChain c
    → All NoStale c.items
    → length (contents c) < 2 ^ 32
    → (let (line, c') = gets c size flags in
        (line, contents c') ≡ read_line (contents c) size flags)
      × IsChain (gets c size flags).1
unfolding gets read_line
gets_refines c size flags v s h = elim (Option-cases (line_end (contents c))) [
  | inl e ↦ rw (find_eol-line_end c.items 0, gets, read_line, e) (refl, v)
  | inr (k, e) ↦
      let j : (0 + k) % 2 ^ 32 ≡ k = omega (arith, line_end-le (contents c) k e) in
      rw (find_eol-line_end c.items 0, gets, read_line, e)
        (rw j (elim (Bool-cases (has_flag flags rrf_measure)) [
          | inl m ↦ rw m (refl, v)
          | inr m ↦
              rw (m, copy_line-take c.items size k v.marks s e)
                (elim (Bool-cases (has_flag flags rrf_peek)) [
                  | inl p ↦ rw p (refl, v)
                  | inr p ↦ let r = remove-drop c k v in rw (p, r.1) (refl, r.0)
                ])
        ]))
]
