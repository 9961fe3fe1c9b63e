-- ===== src/Address.antt =====
-- common/rascal_aton.cc and common/rascal_ntoa.cc: IPv4 addresses and masks as text. A text is the
-- list of its bytes before the zero byte.
pub mod RoundTrip
use Prim.Native.Nat.{bit_or}
use librascal.Prelude.{
  ℕ, zero, suc, ◌+◌, ◌-◌, ◌*◌, ◌/◌, ◌%◌, ◌^◌, Bool, true, false, ◌&&◌, ◌||◌, not, Option, none,
  some, List, [], ◌∷◌, ◌++◌, set, get_or, replicate, ltb, leb, ◌==◌, if◌then◌else◌,
}

abbrev pub dot : ℕ
dot = 46

abbrev pub slash : ℕ
slash = 47

-- `isdigit`, and the value of a digit.
abbrev pub is_digit : ℕ → Bool
is_digit b = leb 48 b && leb b 57

-- The loop of `getseg`: the number, and the text left.
unfoldable pub seg_loop : List ℕ → ℕ → ℕ × List ℕ
seg_loop [] seg = (seg, [])
seg_loop (b ∷ bs) seg =
    let rest = seg_loop bs ((seg * 10 + b + 2 ^ 32 - 48) % 2 ^ 32) in
    if is_digit b then rest else (seg, b ∷ bs)

-- `getseg`; none where it returns false.
unfoldable pub getseg : List ℕ → Option (ℕ × List ℕ)
getseg [] = none
getseg (b ∷ bs) = if is_digit b then some (seg_loop (b ∷ bs) 0) else none

-- `getseg(ptn, seg) && seg <= limit`
unfoldable pub segment : List ℕ → ℕ → Option (ℕ × List ℕ)
segment text limit = elim (getseg text) [
  | none ↦ none
  | some (seg, rest) ↦ if ltb limit seg then none else some (seg, rest)
]

-- The loop over the octets, with how many more may come: `addr`, and the text left, which is empty
-- or starts with '/', or comes behind the '.' after the fourth octet.
unfoldable pub octet_loop : List ℕ → ℕ → Option (List ℕ × List ℕ)
octet_loop text zero = some ([], text)
octet_loop text (suc left) = elim (segment text 255) [
  | none ↦ none
  | some (seg, []) ↦ if left == 0 then some (seg ∷ [], []) else none
  | some (seg, b ∷ rest) ↦
      if b == slash
      then some (seg ∷ replicate left 0, b ∷ rest)
      else if b == dot
      then elim (octet_loop rest left) [
        | none ↦ none
        | some (addr, rest') ↦ some (seg ∷ addr, rest')
      ]
      else none
]

-- `for (; count < seg; ++count) mask[count / 8] |= 1 << (7 - (count % 8))` for the n values from
-- count on.
unfoldable pub mask_bits : ℕ → ℕ → List ℕ → List ℕ
mask_bits zero count mask = mask
mask_bits (suc n) count mask =
    mask_bits n (suc count)
      (set mask (count / 8) (bit_or (get_or mask (count / 8) 0) (2 ^ (7 - count % 8) % 256)))

abbrev pub prefix_mask : ℕ → List ℕ
prefix_mask seg = mask_bits seg 0 (0 ∷ 0 ∷ 0 ∷ 0 ∷ [])

unfoldable pub has_dot : List ℕ → Bool
has_dot [] = false
has_dot (b ∷ bs) = (b == dot) || has_dot bs

-- The loop over the octets of a mask, which writes over `mask` from count on.
unfoldable pub mask_loop : List ℕ → ℕ → ℕ → List ℕ → Option (List ℕ)
mask_loop text count zero mask = some mask
mask_loop text count (suc left) mask = elim (segment text 255) [
  | none ↦ none
  | some (seg, []) ↦ some (set mask count seg)
  | some (seg, b ∷ rest) ↦
      if b == dot then mask_loop rest (suc count) left (set mask count seg) else none
]

-- `inaddr_parse_v4`: the address and the mask; none where it returns false.
unfoldable pub parse_v4 : List ℕ → Option (List ℕ × List ℕ)
parse_v4 text =
    let full = 255 ∷ 255 ∷ 255 ∷ 255 ∷ [] in
    elim (octet_loop text 4) [
      | none ↦ none
      | some (addr, []) ↦ some (addr, full)
      | some (addr, b ∷ rest) ↦
          if not (b == slash)
          then none
          else if has_dot rest
          then elim (mask_loop rest 0 4 full) [ none ↦ none | some mask ↦ some (addr, mask) ]
          else elim (segment rest 32) [
            | none ↦ none
            | some (seg, rest') ↦ some (addr, prefix_mask seg)
          ]
    ]

-- `addr_t`: `data` and `length`.
pub record Addr : Type 0 where
  pub octets : List ℕ
  pub size : ℕ

-- `rascal_aton`: what it returns, the address and the mask; a failure leaves the octets written so
-- far, which are `found` here, and sets both lengths to 0.
unfoldable pub rascal_aton : List ℕ → List ℕ × List ℕ → Bool × Addr × Addr
rascal_aton text found = elim (parse_v4 text) [
  | some (addr, mask) ↦
      (true, record { octets = addr; size = 4 }, record { octets = mask; size = 4 })
  | none ↦ (false, record { octets = found.0; size = 0 }, record { octets = found.1; size = 0 })
]

-- The entry of the table `octets` for a byte: its decimal digits.
abbrev pub octet_text : ℕ → List ℕ
octet_text n =
    if ltb n 10
    then (48 + n) ∷ []
    else if ltb n 100
    then (48 + n / 10) ∷ (48 + n % 10) ∷ []
    else (48 + n / 100) ∷ (48 + n / 10 % 10) ∷ (48 + n % 10) ∷ []

-- `for (…; *seg != 0 && size; …)`: what is written, and the room left.
unfoldable pub put_text : List ℕ → ℕ → List ℕ × ℕ
put_text [] size = ([], size)
put_text (b ∷ bs) zero = ([], zero)
put_text (b ∷ bs) (suc size) = let rest = put_text bs size in (b ∷ rest.0, rest.1)

-- The loop of `rascal_ntoa` over the octets left.
unfoldable pub ntoa_loop : List ℕ → ℕ → List ℕ × ℕ
ntoa_loop [] size = ([], size)
ntoa_loop (o ∷ []) size = put_text (octet_text o) size
ntoa_loop (o ∷ p ∷ os) size =
    let (out, left) = put_text (octet_text o) size in
    let rest = ntoa_loop (p ∷ os) (left - 1) in
    if left == 0 then (out, 0) else (out ++ dot ∷ rest.0, rest.1)

unfoldable pub all_but_last : List ℕ → Option (List ℕ)
all_but_last [] = none
all_but_last (b ∷ []) = some []
all_but_last (b ∷ c ∷ bs) = elim (all_but_last (c ∷ bs)) [ none ↦ none | some l ↦ some (b ∷ l) ]

-- `rascal_ntoa`: the text that the buffer holds; `none` is a write before it, at a size of 0.
unfoldable pub rascal_ntoa : List ℕ → ℕ → Option (List ℕ)
rascal_ntoa octets size =
    let (out, left) = ntoa_loop octets size in if left == 0 then all_but_last out else some out
