-- ===== src/Socket.antt =====
-- `sock_t` of rascal.h and common/rascal.cc: an address with a port, and its form for the system.
pub mod Same
use librascal.Prelude.{
  ℕ, zero, suc, ◌+◌, ◌*◌, ◌/◌, ◌%◌, ◌^◌, Bool, true, false, ◌&&◌, not, List, [], ◌∷◌, take, drop,
  ◌++◌, get_or, ◌==◌, if◌then◌else◌,
}
use librascal.Address.{Addr}

pub record Sock : Type 0 where
  pub addr : Addr
  pub port : ℕ

-- `struct sockaddr_in`: the family, and the port and the address as their bytes stand in memory.
pub record SockaddrIn : Type 0 where
  pub family : ℕ
  pub port : List ℕ
  pub addr : List ℕ

abbrev pub af_inet : ℕ
af_inet = 2

-- `sock_t::put`; `htons` gives the bytes of the port, the high one first, and of the long that is
-- read from `addr.data` four bytes are stored.
unfoldable pub put : Sock → SockaddrIn
put s = record {
  family = af_inet;
  port = s.port / 2 ^ 8 % 2 ^ 8 ∷ s.port % 2 ^ 8 ∷ [];
  addr = take 4 s.addr.octets;
}

-- `sock_t::get` over what the object held, with the four bytes of the address that it names.
unfoldable pub get : Sock → SockaddrIn → Sock
get old sa =
    if sa.family == af_inet
    then record {
      addr = record { octets = sa.addr ++ drop 4 old.addr.octets; size = 4 };
      port = get_or sa.port 0 0 * 2 ^ 8 + get_or sa.port 1 0;
    }
    else record old { addr = record (old.addr) { size = 0 } }

-- The loop of `sock_t::operator ==` over the bytes that count.
unfoldable pub same_bytes : ℕ → List ℕ → List ℕ → Bool
same_bytes zero a b = true
same_bytes (suc n) a b = (get_or a 0 0 == get_or b 0 0) && same_bytes n (drop 1 a) (drop 1 b)

unfoldable pub same_sock : Sock → Sock → Bool
same_sock s src =
    if not (s.addr.size == src.addr.size)
    then false
    else if not (s.port == src.port)
    then false
    else same_bytes src.addr.size src.addr.octets s.addr.octets
