-- ===== src/Dns/Header.antt =====
-- `header`, `header::parse` and `header::dump` of common/resolver/header.cc and resolver.h.
pub mod RoundTrip
use Prim.Native.Nat.{bit_or}
use librascal.Prelude.{
  ℕ, ◌+◌, ◌-◌, ◌*◌, ◌/◌, ◌%◌, ◌^◌, Option, none, some, List, [], ◌∷◌, ◌++◌, ltb, if◌then◌else◌,
}
use librascal.Dns.Cursor.{Cursor, Memory, Writer, get_u16, put_u16}

pub record Header : Type 0 where
  pub id : ℕ
  pub qr : ℕ
  pub opcode : ℕ
  pub aa : ℕ
  pub tc : ℕ
  pub rd : ℕ
  pub ra : ℕ
  pub z : ℕ
  pub rcode : ℕ
  pub qdcount : ℕ
  pub ancount : ℕ
  pub nscount : ℕ
  pub arcount : ℕ

-- `header::header(id)`
unfoldable pub new_header : ℕ → Header
new_header i = record {
  id = i;
  qr = 0;
  opcode = 0;
  aa = 0;
  tc = 0;
  rd = 1;
  ra = 0;
  z = 0;
  rcode = 0;
  qdcount = 0;
  ancount = 0;
  nscount = 0;
  arcount = 0;
}

infixl 5 ◌>>=◌
abbrev ◌>>=◌ {ℓ κ} : {A : Type ℓ} {B : Type κ} → Option A → (A → Option B) → Option B
none >>= f = none
some a >>= f = f a

unfoldable pub parse : Memory → Cursor → Option (Header × Cursor)
parse m c = do
  (i, c₁) ← get_u16 m c
  (tmp, c₂) ← get_u16 m c₁
  (qd, c₃) ← get_u16 m c₂
  (an, c₄) ← get_u16 m c₃
  (ns, c₅) ← get_u16 m c₄
  (ar, c₆) ← get_u16 m c₅
  some (
    record {
      id = i;
      qr = tmp / 2 ^ 15 % 2;
      opcode = tmp / 2 ^ 11 % 16;
      aa = tmp / 2 ^ 10 % 2;
      tc = tmp / 2 ^ 9 % 2;
      rd = tmp / 2 ^ 8 % 2;
      ra = tmp / 2 ^ 7 % 2;
      z = tmp / 2 ^ 4 % 8;
      rcode = tmp % 16;
      qdcount = qd;
      ancount = an;
      nscount = ns;
      arcount = ar;
    },
    c₆,
  )

infixl 45 ◌⋁◌
abbrev pub ◌⋁◌ : ℕ → ℕ → ℕ
a ⋁ b = bit_or a b

-- The second word of a packet.
unfoldable pub flags : Header → ℕ
flags h =
    (h.qr * 2 ^ 15)
    ⋁ (h.opcode * 2 ^ 11)
    ⋁ (h.aa * 2 ^ 10)
    ⋁ (h.tc * 2 ^ 9)
    ⋁ (h.rd * 2 ^ 8)
    ⋁ (h.ra * 2 ^ 7)
    ⋁ (h.z * 2 ^ 4)
    ⋁ h.rcode

unfoldable pub dump : Header → Writer → Option Writer
dump h w = do
  w₁ ← put_u16 w h.id
  w₂ ← put_u16 w₁ (flags h)
  w₃ ← put_u16 w₂ h.qdcount
  w₄ ← put_u16 w₃ h.ancount
  w₅ ← put_u16 w₄ h.nscount
  put_u16 w₅ h.arcount
