-- ===== src/Address/RoundTrip.antt =====
-- An address as text, and back.
use librascal.Prelude.{
  ℕ, zero, suc, ◌+◌, ◌-◌, ◌*◌, ◌/◌, ◌%◌, ◌^◌, ◌≤◌, ◌<◌, ◌≡◌, ◌≢◌, All, refl, sym, ap, ◌∙◌, true,
  false, some, List, [], ◌∷◌, ◌++◌, append-nil, length, ltb, ◌==◌, arith, Bool-cases, inl, inr,
}
use librascal.Address.{
  dot, is_digit, seg_loop, getseg, segment, octet_loop, parse_v4, octet_text, put_text, ntoa_loop,
  rascal_ntoa, rascal_aton,
}

-- A text behind a number: it ends, or goes on with something that is no digit.
abbrev Stops : List ℕ → Type 0
Stops [] = Unit
Stops (b ∷ bs) = is_digit b ≡ false

seg_loop_stop : (rest : List ℕ) (seg : ℕ) → Stops rest → seg_loop rest seg ≡ (seg, rest)
unfolding seg_loop
seg_loop_stop [] seg s = refl
seg_loop_stop (b ∷ bs) seg s = rw s refl

is_digit_lem : (d : ℕ) → d < 10 → is_digit (48 + d) ≡ true
is_digit_lem d h = ground arith

-- A digit more.
seg_loop_digit :
    (d seg : ℕ) (rest : List ℕ)
    → d < 10
    → seg < 1000
    → seg_loop ((48 + d) ∷ rest) seg ≡ seg_loop rest (seg * 10 + d)
unfolding seg_loop
seg_loop_digit d seg rest h b =
    let e : (seg * 10 + (48 + d) + 2 ^ 32 - 48) % 2 ^ 32 ≡ seg * 10 + d = omega arith in
    rw (is_digit_lem d h) (ap (seg_loop rest) e)

getseg_digit : (d : ℕ) (rest : List ℕ) → d < 10 → getseg ((48 + d) ∷ rest) ≡ some (seg_loop rest d)
unfolding getseg
getseg_digit d rest h =
    let e : 0 * 10 + d ≡ d = omega arith in
    rw (is_digit_lem d h) (ap some (seg_loop_digit d 0 rest h (omega arith) ∙ ap (seg_loop rest) e))

getseg-octet_text :
    (n : ℕ) (rest : List ℕ) → n < 256 → Stops rest → getseg (octet_text n ++ rest) ≡ some (n, rest)
getseg-octet_text n rest h s = elim (Bool-cases (ltb n 10)) [
  | inl a ↦ rw a (getseg_digit n rest (ground arith) ∙ ap some (seg_loop_stop rest n s))
  | inr a ↦ elim (Bool-cases (ltb n 100)) [
    | inl b ↦
        rw (a, b)
          (getseg_digit (n / 10) _ (ground arith)
            ∙ ap some (
                seg_loop_digit (n % 10) (n / 10) rest (omega arith) (omega arith)
                ∙ back (n / 10 * 10 + n % 10) (omega arith)))
    | inr b ↦
        rw (a, b)
          (getseg_digit (n / 100) _ (omega arith)
            ∙ ap some (
                seg_loop_digit (n / 10 % 10) (n / 100) _ (omega arith) (omega arith)
                ∙ seg_loop_digit (n % 10) (n / 100 * 10 + n / 10 % 10) rest (omega arith)
                    (omega arith)
                ∙ back ((n / 100 * 10 + n / 10 % 10) * 10 + n % 10) (omega arith)))
  ]
]
  where
    back : (m : ℕ) → m ≡ n → seg_loop rest m ≡ (n, rest)
    back m e = ap (seg_loop rest) e ∙ seg_loop_stop rest n s

segment-octet_text :
    (n : ℕ) (rest : List ℕ)
    → n < 256
    → Stops rest
    → segment (octet_text n ++ rest) 255 ≡ some (n, rest)
unfolding segment
segment-octet_text n rest h s =
    let e : ltb 255 n ≡ false = ground arith in
    rw (getseg-octet_text n rest h s, segment) (rw e refl)

-- The octets as text, with dots between them.
abbrev text_of : List ℕ → List ℕ
text_of [] = []
text_of (o ∷ []) = octet_text o
text_of (o ∷ p ∷ os) = octet_text o ++ dot ∷ text_of (p ∷ os)

length-octet_text : (n : ℕ) → length (octet_text n) ≤ 3
length-octet_text n = elim (Bool-cases (ltb n 10)) [
  | inl a ↦ rw a (omega arith)
  | inr a ↦ elim (Bool-cases (ltb n 100)) [
    | inl b ↦ rw (a, b) (omega arith)
    | inr b ↦ rw (a, b) (omega arith)
  ]
]

put_text_fits :
    (bs : List ℕ) (size : ℕ) → length bs ≤ size → put_text bs size ≡ (bs, size - length bs)
unfolding put_text
put_text_fits [] size h = let e : size ≡ size - 0 = omega arith in ap (λ n. ([], n)) e
put_text_fits (b ∷ bs) zero h = absurd (omega arith)
put_text_fits (b ∷ bs) (suc size) h =
    let e : size - length bs ≡ suc size - suc (length bs) = omega arith in
    ap (λ (r : List ℕ × ℕ). (b ∷ r.0, r.1)) (put_text_fits bs size (omega arith))
    ∙ ap (λ n. (b ∷ bs, n)) e

ntoa_loop_more :
    (o p : ℕ) (os : List ℕ) (size : ℕ)
    → length (octet_text o) < size
    → let rest = ntoa_loop (p ∷ os) (size - length (octet_text o) - 1) in
      ntoa_loop (o ∷ p ∷ os) size ≡ (octet_text o ++ dot ∷ rest.0, rest.1)
unfolding ntoa_loop
ntoa_loop_more o p os size h =
    let e : ((size - length (octet_text o)) == 0) ≡ false = positive in
    rw (put_text_fits (octet_text o) size (omega arith)) (rw e refl)
  where
    positive : ((size - length (octet_text o)) == 0) ≡ false
    positive = ground arith

ntoa_loop_fits :
    (o : ℕ) (os : List ℕ) (size : ℕ)
    → 4 * length (o ∷ os) ≤ size
    → (left : ℕ) × (left ≢ 0) × (ntoa_loop (o ∷ os) size ≡ (text_of (o ∷ os), left))
unfolding ntoa_loop
ntoa_loop_fits o [] size h =
    let l = length-octet_text o in
    (
      size - length (octet_text o),
      omega (arith, l, h),
      put_text_fits (octet_text o) size (omega (arith, l, h)),
    )
ntoa_loop_fits o (p ∷ os) size h =
    let l = length-octet_text o in
    let (left, n, e) =
      ntoa_loop_fits p os (size - length (octet_text o) - 1) (omega (arith, l, h)) in
    (
      left,
      n,
      ntoa_loop_more o p os size (omega (arith, l, h))
          ∙ ap (λ (r : List ℕ × ℕ). (octet_text o ++ dot ∷ r.0, r.1)) e,
    )

octet_loop_more :
    (n : ℕ) (rest : List ℕ) (left : ℕ) (addr : List ℕ)
    → n < 256
    → octet_loop rest left ≡ some (addr, [])
    → octet_loop (octet_text n ++ dot ∷ rest) (suc left) ≡ some (n ∷ addr, [])
unfolding octet_loop
octet_loop_more n rest left addr h e =
    rw (segment-octet_text n (dot ∷ rest) h refl, octet_loop) (rw e refl)

octet_loop_last : (n : ℕ) → n < 256 → octet_loop (octet_text n) 1 ≡ some (n ∷ [], [])
unfolding octet_loop
octet_loop_last n h =
    let s : segment (octet_text n) 255 ≡ some (n, []) =
      ap (λ l. segment l 255) (sym (append-nil (octet_text n))) ∙ segment-octet_text n [] h tt in
    rw (s, octet_loop) refl

octet_loop-text_of :
    (o : ℕ) (os : List ℕ)
    → All (λ n. n < 256) (o ∷ os)
    → octet_loop (text_of (o ∷ os)) (length (o ∷ os)) ≡ some (o ∷ os, [])
octet_loop-text_of o [] (h, hs) = octet_loop_last o h
octet_loop-text_of o (p ∷ os) (h, hs) =
    octet_loop_more o (text_of (p ∷ os)) (length (p ∷ os)) (p ∷ os) h (octet_loop-text_of p os hs)

-- An address of four bytes, written by `rascal_ntoa` into a buffer of at least 16, is a text that
-- `rascal_aton` reads as that address, with the mask of one host.
pub aton-ntoa :
    (octets : List ℕ) (size : ℕ) (found : List ℕ × List ℕ)
    → length octets ≡ 4
    → All (λ n. n < 256) octets
    → 16 ≤ size
    → (text : List ℕ) × (rascal_ntoa octets size ≡ some text)
      × (rascal_aton text found ≡ (
        true,
        record { octets = octets; size = 4 },
        record { octets = 255 ∷ 255 ∷ 255 ∷ 255 ∷ []; size = 4 },
      ))
unfolding rascal_ntoa rascal_aton parse_v4
aton-ntoa [] size found l a h = absurd (omega arith)
aton-ntoa (o ∷ os) size found l a h =
    let (left, n, e) = ntoa_loop_fits o os size (omega arith) in
    let z : (left == 0) ≡ false = ground arith in
    let p : octet_loop (text_of (o ∷ os)) 4 ≡ some (o ∷ os, []) =
      ap (octet_loop (text_of (o ∷ os))) (sym l) ∙ octet_loop-text_of o os a in
    (text_of (o ∷ os), rw (e, rascal_ntoa) (rw z refl), rw (p, rascal_aton, parse_v4) refl)
