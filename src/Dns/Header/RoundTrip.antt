-- ===== src/Dns/Header/RoundTrip.antt =====
-- A header that is written and read again.
use librascal.Prelude.{
  ℕ, ◌+◌, ◌-◌, ◌*◌, ◌/◌, ◌%◌, ◌^◌, ◌≤◌, ◌<◌, ◌≡◌, refl, ap, ◌∙◌, none, some, List, [], ◌∷◌, ◌++◌,
  get_or, arith, append_assoc,
}
use librascal.Prelude.Bits.{bit_or_disjoint}
use librascal.Dns.Cursor.{Cursor, Memory, Writer, get_u16, put_u16}
use librascal.Dns.Header.{Header, ◌⋁◌, flags, parse, dump}

-- The widths that resolver.h gives to the fields.
pub record IsHeader (h : Header) : Type 0 where
  pub id_in : h.id < 2 ^ 16
  pub qr_in : h.qr < 2
  pub opcode_in : h.opcode < 16
  pub aa_in : h.aa < 2
  pub tc_in : h.tc < 2
  pub rd_in : h.rd < 2
  pub ra_in : h.ra < 2
  pub z_in : h.z < 8
  pub rcode_in : h.rcode < 16
  pub qdcount_in : h.qdcount < 2 ^ 16
  pub ancount_in : h.ancount < 2 ^ 16
  pub nscount_in : h.nscount < 2 ^ 16
  pub arcount_in : h.arcount < 2 ^ 16

-- `bit_or` of a multiple of 2 ^ k and a number below 2 ^ k.
or_multiple : (k z x y : ℕ) → x ≡ z * 2 ^ k → y < 2 ^ k → (x ⋁ y) ≡ x + y
or_multiple k z x y e h = rw e (bit_or_disjoint k z y h)

-- The fields lie side by side: no two share a bit.
flags-sum :
    (h : Header)
    → IsHeader h
    → flags h
      ≡ h.qr * 2 ^ 15
        + h.opcode * 2 ^ 11
        + h.aa * 2 ^ 10
        + h.tc * 2 ^ 9
        + h.rd * 2 ^ 8
        + h.ra * 2 ^ 7
        + h.z * 2 ^ 4
        + h.rcode
unfolding flags
flags-sum h v =
    let a = h.qr * 2 ^ 15 in
    let b = a + h.opcode * 2 ^ 11 in
    let c = b + h.aa * 2 ^ 10 in
    let d = c + h.tc * 2 ^ 9 in
    let e = d + h.rd * 2 ^ 8 in
    let f = e + h.ra * 2 ^ 7 in
    let g = f + h.z * 2 ^ 4 in
    let p₁ = or_multiple 15 h.qr a (h.opcode * 2 ^ 11) refl (omega arith) in
    let p₂ = or_multiple 11 (h.qr * 16 + h.opcode) b (h.aa * 2 ^ 10) (omega arith) (omega arith) in
    let p₃ = or_multiple 10 (b / 2 ^ 10 + h.aa) c (h.tc * 2 ^ 9) (omega arith) (omega arith) in
    let p₄ = or_multiple 9 (c / 2 ^ 9 + h.tc) d (h.rd * 2 ^ 8) (omega arith) (omega arith) in
    let p₅ = or_multiple 8 (d / 2 ^ 8 + h.rd) e (h.ra * 2 ^ 7) (omega arith) (omega arith) in
    let p₆ = or_multiple 7 (e / 2 ^ 7 + h.ra) f (h.z * 2 ^ 4) (omega arith) (omega arith) in
    let p₇ = or_multiple 4 (f / 2 ^ 4 + h.z) g h.rcode (omega arith) (omega arith) in
    rw (p₁, p₂, p₃, p₄, p₅, p₆, p₇)

-- The bytes of a 16 bit number, high byte first.
abbrev word : ℕ → List ℕ
word v = v / 2 ^ 8 % 256 ∷ v % 256 ∷ []

-- What `dump` writes: six words, if there is room for twelve bytes.
abbrev pub header_bytes : Header → List ℕ
header_bytes h =
    word h.id
    ++ word (flags h)
    ++ word h.qdcount
    ++ word h.ancount
    ++ word h.nscount
    ++ word h.arcount

abbrev wrote : Writer → ℕ → Writer
wrote w v = record { out = w.out ++ word v; room = w.room - 2 }

put_room : (w : Writer) (v : ℕ) → 2 ≤ w.room → put_u16 w v ≡ some (wrote w v)
unfolding put_u16
put_room w v h = ground arith

put_full : (w : Writer) (v : ℕ) → w.room < 2 → put_u16 w v ≡ none
unfolding put_u16
put_full w v h = ground arith

-- With room for twelve bytes `dump` appends twelve, and it fails with less.
dump-room :
    (h : Header) (w : Writer)
    → 12 ≤ w.room
    → dump h w ≡ some (record { out = w.out ++ header_bytes h; room = w.room - 12 })
unfolding dump
dump-room h w e =
    let w₁ = wrote w h.id in
    let w₂ = wrote w₁ (flags h) in
    let w₃ = wrote w₂ h.qdcount in
    let w₄ = wrote w₃ h.ancount in
    let w₅ = wrote w₄ h.nscount in
    let r : w.room - 2 - 2 - 2 - 2 - 2 - 2 ≡ w.room - 12 = omega arith in
    rw (put_room w h.id (omega arith), dump)
      (rw (put_room w₁ (flags h) (omega arith)) (
        rw (put_room w₂ h.qdcount (omega arith)) (
          rw (put_room w₃ h.ancount (omega arith)) (
            rw (put_room w₄ h.nscount (omega arith))
              (rw (put_room w₅ h.arcount (omega arith)) (rw r (simp append_assoc)))))))

dump-full : (h : Header) (w : Writer) → w.room < 12 → dump h w ≡ none
unfolding dump put_u16
dump-full h w e = ground arith

-- The bytes of a packet in memory, with anything behind them.
abbrev pub in_memory : List ℕ → Memory → Memory
in_memory bytes behind i = get_or bytes i (behind i)

-- Reading back a word.
word-value : (v : ℕ) → v < 2 ^ 16 → v / 2 ^ 8 % 256 * 2 ^ 8 + v % 256 ≡ v
word-value v h = omega arith

abbrev value_at : Memory → ℕ → ℕ
value_at m pos = m pos * 2 ^ 8 + m (pos + 1)

abbrev at : ℕ → ℕ → Cursor
at pos size = record { pos = pos; size = size }

get_u16-room :
    (m : Memory) (pos size : ℕ)
    → 2 ≤ size
    → get_u16 m (at pos size) ≡ some (value_at m pos, at (pos + 2) (size - 2))
unfolding get_u16
get_u16-room m pos size h = ground arith

-- The header that six words make.
abbrev of_words : ℕ → ℕ → ℕ → ℕ → ℕ → ℕ → Header
of_words i tmp qd an ns ar = record {
  id = i;
  qr = tmp / 2 ^ 15 % 2;
  opcode = tmp / 2 ^ 11 % 16;
  aa = tmp / 2 ^ 10 % 2;
  tc = tmp / 2 ^ 9 % 2;
  rd = tmp / 2 ^ 8 % 2;
  ra = tmp / 2 ^ 7 % 2;
  z = tmp / 2 ^ 4 % 8;
  rcode = tmp % 16;
  qdcount = qd;
  ancount = an;
  nscount = ns;
  arcount = ar;
}

of_words_self :
    (h : Header) → IsHeader h → of_words h.id (flags h) h.qdcount h.ancount h.nscount h.arcount ≡ h
of_words_self h v = let f = flags-sum h v in ground (arith, f)

parse-room :
    (m : Memory) (size : ℕ)
    → 12 ≤ size
    → parse m (at 0 size)
      ≡ some (
        of_words
            (value_at m 0)
            (value_at m 2)
            (value_at m 4)
            (value_at m 6)
            (value_at m 8)
            (value_at m 10),
        at 12 (size - 12),
      )
unfolding parse
parse-room m size h =
    let r : size - 2 - 2 - 2 - 2 - 2 - 2 ≡ size - 12 = omega arith in
    rw (get_u16-room m 0 size (omega arith), parse)
      (rw (get_u16-room m 2 (size - 2) (omega arith)) (
        rw (get_u16-room m 4 (size - 2 - 2) (omega arith)) (
          rw (get_u16-room m 6 (size - 2 - 2 - 2) (omega arith)) (
            rw (get_u16-room m 8 (size - 2 - 2 - 2 - 2) (omega arith))
              (rw (get_u16-room m 10 (size - 2 - 2 - 2 - 2 - 2) (omega arith)) (rw r))))))

words-back :
    (h : Header)
    → IsHeader h
    → of_words
        (h.id / 2 ^ 8 % 256 * 2 ^ 8 + h.id % 256)
        (flags h / 2 ^ 8 % 256 * 2 ^ 8 + flags h % 256)
        (h.qdcount / 2 ^ 8 % 256 * 2 ^ 8 + h.qdcount % 256)
        (h.ancount / 2 ^ 8 % 256 * 2 ^ 8 + h.ancount % 256)
        (h.nscount / 2 ^ 8 % 256 * 2 ^ 8 + h.nscount % 256)
        (h.arcount / 2 ^ 8 % 256 * 2 ^ 8 + h.arcount % 256)
      ≡ h
words-back h v =
    let b : flags h < 2 ^ 16 = omega (arith, flags-sum h v) in
    rw
      (
        word-value h.id v.id_in,
        word-value (flags h) b,
        word-value h.qdcount v.qdcount_in,
        word-value h.ancount v.ancount_in,
        word-value h.nscount v.nscount_in,
        word-value h.arcount v.arcount_in,
      )
      (of_words_self h v)

-- A header within the widths of its fields, written with room and read from the packet's start,
-- comes back as it was, and the cursor stands behind its twelve bytes.
pub parse-dump :
    (h : Header) (w : Writer) (behind : Memory) (size : ℕ)
    → IsHeader h
    → w.out ≡ []
    → 12 ≤ w.room
    → 12 ≤ size
    → (w' : Writer) × (dump h w ≡ some w')
      × (parse (in_memory w'.out behind) (record { pos = 0; size = size })
          ≡ some (h, record { pos = 12; size = size - 12 }))
parse-dump h w behind size v e r s = (
  record { out = w.out ++ header_bytes h; room = w.room - 12 },
  dump-room h w r,
  rw e (parse-room _ size s ∙ ap (λ g. some (g, at 12 (size - 12))) (words-back h v)),
)
