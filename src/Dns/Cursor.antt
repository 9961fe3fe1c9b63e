-- ===== src/Dns/Cursor.antt =====
-- The inline `get` and `put` of common/resolver/resolver.h: 16 and 32 bit numbers of a packet.
use Prim.Native.Nat.{bit_or}
use librascal.Prelude.{
  ℕ, ◌+◌, ◌-◌, ◌*◌, ◌/◌, ◌%◌, ◌^◌, Option, none, some, List, [], ◌∷◌, ◌++◌, ltb, if◌then◌else◌,
}

-- `src` and `size`: `pos` counts from the packet's first byte, which `header::head` points to.
pub record Cursor : Type 0 where
  pub pos : ℕ
  pub size : ℕ

abbrev pub advance : ℕ → Cursor → Cursor
advance n c = record { pos = c.pos + n; size = c.size - n }

-- The memory from the packet's first byte on; at and after the packet's end it holds anything.
abbrev pub Memory : Type 0
Memory = ℕ → ℕ

unfoldable pub get_u16 : Memory → Cursor → Option (ℕ × Cursor)
get_u16 m c = if ltb c.size 2 then none else some (m c.pos * 2 ^ 8 + m (c.pos + 1), advance 2 c)

unfoldable pub get_u32 : Memory → Cursor → Option (ℕ × Cursor)
get_u32 m c =
    if ltb c.size 4
    then none
    else some (
      bit_or (bit_or (bit_or (m c.pos * 2 ^ 24) (m (c.pos + 1) * 2 ^ 16)) (m (c.pos + 2) * 2 ^ 8))
          (m (c.pos + 3)),
      advance 4 c,
    )

-- `dst` and `size`: the bytes written so far, and the room that is left.
pub record Writer : Type 0 where
  pub out : List ℕ
  pub room : ℕ

unfoldable pub put_u16 : Writer → ℕ → Option Writer
put_u16 w v =
    if ltb w.room 2
    then none
    else some (record { out = w.out ++ (v / 2 ^ 8 % 256 ∷ v % 256 ∷ []); room = w.room - 2 })
