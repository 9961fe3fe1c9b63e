-- ===== src/Dns/Name/Skip.antt =====
-- `skip_name` stays in the packet, and the fuel does not show.
use librascal.Prelude.{
  ℕ, zero, suc, ◌+◌, ◌-◌, ◌<◌, ◌≡◌, refl, ap, min, Bool, true, false, none, some, ltb, ◌==◌,
  if◌then◌else◌, arith, Bool-cases, inl, inr,
}
use librascal.Dns.Cursor.{Cursor, Memory, advance, get_u16, get_u32}
use librascal.Dns.Name.{skip_labels, skip_name, skip_echo}

-- Any two amounts of fuel above the size give one result.
skip_labels-fuel :
    (m : Memory) (f g : ℕ) (c : Cursor)
    → c.size < f
    → c.size < g
    → skip_labels m f c ≡ skip_labels m g c
unfolding skip_labels
skip_labels-fuel m zero g c p q = absurd (omega arith)
skip_labels-fuel m (suc f) zero c p q = absurd (omega arith)
skip_labels-fuel m (suc f) (suc g) c p q = elim (Bool-cases (c.size == 0)) [
  | inl z ↦ rw z
  | inr z ↦
      let k = min (m c.pos + 1) c.size in
      let ih = skip_labels-fuel m f g (advance k c) (ground arith) (ground arith) in rw ih
]

-- A round of the loop, given what the rounds after a label come to.
abbrev round : Memory → Cursor → Bool × Cursor → Bool × Cursor
round m c rest =
    if c.size == 0
    then (false, c)
    else if m c.pos == 0
    then (true, advance 1 c)
    else if ltb (m c.pos) 64
    then rest
    else elim (get_u16 m c) [ none ↦ (false, c) | some (o, c') ↦ (true, c') ]

-- `skip_name` obeys the loop of the source, whatever the name: it returns false at the packet's
-- end; it goes behind a zero byte; it goes on behind a label of less than 64 bytes, or at the end
-- of the packet if the label goes beyond; and at any other byte it takes two bytes, if there are two.
pub skip_name-loop :
    (m : Memory) (c : Cursor)
    → skip_name m c ≡ (
        if c.size == 0
        then (false, c)
        else if m c.pos == 0
        then (true, advance 1 c)
        else if ltb (m c.pos) 64
        then skip_name m (advance (min (m c.pos + 1) c.size) c)
        else elim (get_u16 m c) [ none ↦ (false, c) | some (o, c') ↦ (true, c') ])
unfolding skip_name skip_labels
skip_name-loop m c = elim (Bool-cases (c.size == 0)) [
  | inl z ↦ rw z
  | inr z ↦
      let k = min (m c.pos + 1) c.size in
      ap (round m c)
        (skip_labels-fuel m c.size (suc (c.size - k)) (advance k c) (ground arith) (omega arith))
]

abbrev pub end_of : Cursor → ℕ
end_of c = c.pos + c.size

pub end_of-get_u16 :
    (m : Memory) (c : Cursor) {v : ℕ} {c' : Cursor}
    → get_u16 m c ≡ some (v, c')
    → end_of c' ≡ end_of c
unfolding get_u16
end_of-get_u16 m c e = ground arith

end_of-skip_labels : (m : Memory) (f : ℕ) (c : Cursor) → end_of (skip_labels m f c).1 ≡ end_of c
unfolding skip_labels get_u16
end_of-skip_labels m zero c = refl
end_of-skip_labels m (suc f) c =
    let k = min (m c.pos + 1) c.size in ground (arith, end_of-skip_labels m f (advance k c))

-- `skip_name` moves the cursor within the packet: the end that it points to stays.
pub end_of-skip_name : (m : Memory) (c : Cursor) → end_of (skip_name m c).1 ≡ end_of c
unfolding skip_name
end_of-skip_name m c = end_of-skip_labels m (suc c.size) c

-- Two memories that hold the same packet, whatever stands behind it.
abbrev pub SameBelow : ℕ → Memory → Memory → Type 0
SameBelow n m m' = (i : ℕ) → i < n → m i ≡ m' i

pub get_u16-local :
    (m m' : Memory) (c : Cursor) → SameBelow (end_of c) m m' → get_u16 m c ≡ get_u16 m' c
unfolding get_u16
get_u16-local m m' c h = elim (Bool-cases (ltb c.size 2)) [
  | inl z ↦ rw z
  | inr z ↦ rw (z, h c.pos (ground arith), h (c.pos + 1) (ground arith))
]

pub end_of-get_u32 :
    (m : Memory) (c : Cursor) {v : ℕ} {c' : Cursor}
    → get_u32 m c ≡ some (v, c')
    → end_of c' ≡ end_of c
unfolding get_u32
end_of-get_u32 m c e = ground arith

pub get_u32-local :
    (m m' : Memory) (c : Cursor) → SameBelow (end_of c) m m' → get_u32 m c ≡ get_u32 m' c
unfolding get_u32
get_u32-local m m' c h = elim (Bool-cases (ltb c.size 4)) [
  | inl z ↦ rw z
  | inr z ↦ rw (
    z,
    h c.pos (ground arith),
    h (c.pos + 1) (ground arith),
    h (c.pos + 2) (ground arith),
    h (c.pos + 3) (ground arith),
  )
]

skip_labels-local :
    (m m' : Memory) (f : ℕ) (c : Cursor)
    → SameBelow (end_of c) m m'
    → skip_labels m f c ≡ skip_labels m' f c
unfolding skip_labels
skip_labels-local m m' zero c h = refl
skip_labels-local m m' (suc f) c h = elim (Bool-cases (c.size == 0)) [
  | inl z ↦ rw z
  | inr z ↦
      let k = min (m' c.pos + 1) c.size in
      let e : m c.pos ≡ m' c.pos = h c.pos (ground arith) in
      let s : SameBelow (end_of (advance k c)) m m' = λ i p. h i (omega arith) in
      rw (e, get_u16-local m m' c h, skip_labels-local m m' f (advance k c) s)
]

-- `skip_name` depends on no byte behind the packet.
pub skip_name-local :
    (m m' : Memory) (c : Cursor) → SameBelow (end_of c) m m' → skip_name m c ≡ skip_name m' c
unfolding skip_name
skip_name-local m m' c h = skip_labels-local m m' (suc c.size) c h

pub end_of-skip_echo : (m : Memory) (q : ℕ) (c : Cursor) → end_of (skip_echo m q c).2 ≡ end_of c
unfolding skip_echo
end_of-skip_echo m zero c = refl
end_of-skip_echo m (suc q) c =
    let c' = (skip_name m c).1 in
    ground (arith, end_of-skip_echo m q (advance 4 c'), end_of-skip_name m c)

pub skip_echo-local :
    (m m' : Memory) (q : ℕ) (c : Cursor)
    → SameBelow (end_of c) m m'
    → skip_echo m q c ≡ skip_echo m' q c
unfolding skip_echo
skip_echo-local m m' zero c h = refl
skip_echo-local m m' (suc q) c h =
    let c' = (skip_name m' c).1 in
    rw (skip_name-local m m' c h) (elim (Bool-cases (ltb c'.size 4)) [
      | inl z ↦ rw z
      | inr z ↦
          let s : SameBelow (end_of (advance 4 c')) m m' =
            λ i p. h i (ground (arith, end_of-skip_name m' c)) in
          rw (skip_echo-local m m' q (advance 4 c') s)
    ])
