-- ===== src/Requests/Lookups.antt =====
-- common/resolver/rascal_getaddr.cc, rascal_gethost.cc and `request::on_read` of request.cc: the
-- requests for the addresses of a host and for the names of an address, from their start to the call
-- of the user's callback.
pub mod Balance
use librascal.Prelude.{
  ℕ, zero, suc, ◌+◌, Bool, true, false, not, Option, none, some, List, [], ◌∷◌, ◌++◌, get_or, take,
  ◌==◌, if◌then◌else◌,
}
use librascal.Address.{Addr, octet_text}
use librascal.Dns.Cursor.{Cursor, Memory, Writer, put_u16}
use librascal.Dns.Header.{Header, new_header, parse, dump}
use librascal.Dns.Name.{dot, put_name}
use librascal.Dns.Answers.{type_a, type_ptr, class_in, get_addrs, get_hosts}
use librascal.Srv.{isok}
use librascal.Util.Ftspec.{Ftspec}
use librascal.Requests.{Request, Requests, new_request, without, cancel_request, pick, flush}

infixl 5 ◌>>=◌
abbrev ◌>>=◌ {ℓ κ} : {A : Type ℓ} {B : Type κ} → Option A → (A → Option B) → Option B
none >>= f = none
some a >>= f = f a

-- ".in-addr.arpa"
abbrev arpa : List ℕ
arpa = 46 ∷ 105 ∷ 110 ∷ 45 ∷ 97 ∷ 100 ∷ 100 ∷ 114 ∷ 46 ∷ 97 ∷ 114 ∷ 112 ∷ 97 ∷ []

-- The text that `snprintf` makes of the four bytes, the last one first.
unfoldable pub reverse_name : List ℕ → List ℕ
reverse_name octets =
    octet_text (get_or octets 3 0)
    ++ dot
      ∷ (octet_text (get_or octets 2 0)
          ++ dot
            ∷ (octet_text (get_or octets 1 0) ++ dot ∷ (octet_text (get_or octets 0 0) ++ arpa)))

-- `header::put` of an address.
unfoldable pub put_addr : Addr → Writer → Option Writer
put_addr a w = if a.size == 4 then put_name (reverse_name a.octets) w else none

-- The member `data` of a `getaddr` and of a `gethost`.
pub data Ask : Type 0 where
  host : List ℕ → Ask
  address : Addr → Ask

-- `getaddr::dump`
unfoldable pub getaddr_dump : ℕ → List ℕ → Writer → Option Writer
getaddr_dump id name w = do
  w₁ ← dump (record (new_header id) { qdcount = 1 }) w
  w₂ ← put_name name w₁
  w₃ ← put_u16 w₂ type_a
  put_u16 w₃ class_in

-- `gethost::dump`
unfoldable pub gethost_dump : ℕ → Addr → Writer → Option Writer
gethost_dump id a w = do
  w₁ ← dump (record (new_header id) { qdcount = 1 }) w
  w₂ ← put_addr a w₁
  w₃ ← put_u16 w₂ type_ptr
  put_u16 w₃ class_in

abbrev pub dump_ask : ℕ → Ask → Writer → Option Writer
dump_ask id (host name) w = getaddr_dump id name w
dump_ask id (address a) w = gethost_dump id a w

-- A call of the user's callback, without its context: the host with its addresses, or the address
-- with the number of its names and what was written to `hostv`.
pub data Reply : Type 0 where
  addresses : List ℕ → List (List ℕ) → Reply
  names : Addr → ℕ → List (ℕ × List ℕ) → Reply

-- The queue, the `data` of the requests by their addresses, and the calls of callbacks so far.
-- `started` counts the requests that the public calls have accepted.
pub record Resolver : Type 0 where
  pub requests : Requests
  pub asks : ℕ → Ask
  pub replies : List Reply
  pub started : ℕ

abbrev pub no_requests : Resolver
no_requests = record {
  requests = record { queue = []; lastid = 0 };
  asks = λ at. host [];
  replies = [];
  started = 0;
}

-- `strlcpy(data, hostname, sizeof(data))`, or the assignment of the address.
abbrev pub stored : Ask → Ask
stored (host name) = host (take 255 name)
stored (address a) = address a

-- Whether there is a packet of at most 512 bytes.
abbrev pub has_packet : Option Writer → Bool
has_packet none = false
has_packet (some w) = true

-- `rascal_getaddr` and `rascal_gethost`, that is the constructors: the code or id returned, where
-- the object stands at `self` with the id `rid`. The destructor takes the request out of the queue.
unfoldable pub start : ℕ → ℕ → Ftspec → List (ℕ × ℕ) → Ask → Resolver → ℕ × Resolver
start self rid now servers what s =
    let ask = stored what in
    let (req, q) = new_request s.requests self now in
    let packet = dump_ask req.id ask (record { out = []; room = 512 }) in
    let (rc, woken, sent) = flush (has_packet packet) servers req in
    if isok rc
    then (
      rid,
      record s {
        requests = record q { queue = s.requests.queue ++ sent ∷ [] };
        asks = λ at. if at == self then ask else s.asks at;
        started = s.started + 1;
      },
    )
    else (rc, record s { requests = record q { queue = without self q.queue } })

-- A call of the callback, and `request::cancel`.
unfoldable pub answer : Request → Reply → Resolver → Resolver
answer req reply s = record s {
  requests = (cancel_request req s.requests).1;
  replies = s.replies ++ reply ∷ [];
}

-- `getaddr::on_event`
abbrev pub getaddr_event : Memory → Header → Cursor → List ℕ → Request → Resolver → Resolver
getaddr_event m h c name req s = answer req (addresses name (get_addrs m h c 16)) s

-- `gethost::on_event`, given what `get_hosts` returns and writes.
abbrev pub gethost_event : ℕ × List (ℕ × List ℕ) → Addr → Request → Resolver → Resolver
gethost_event hosts a req s = answer req (names a hosts.0 hosts.1) s

-- The virtual `on_event`. None is a name whose pointers have no end.
unfoldable pub on_event : Memory → ℕ → Header → Cursor → Request → Resolver → Option Resolver
on_event m fuel h c req s = elim (s.asks req.self) [
  | host name ↦ some (getaddr_event m h c name req s)
  | address a ↦ do hosts ← get_hosts m fuel h c 16; some (gethost_event hosts a req s)
]

-- `getaddr::cancel`
abbrev pub getaddr_cancel : List ℕ → Request → Resolver → Resolver
getaddr_cancel name req s = answer req (addresses name []) s

-- `gethost::cancel`
abbrev pub gethost_cancel : Addr → Request → Resolver → Resolver
gethost_cancel a req s = answer req (names a 0 []) s

-- The virtual `cancel`, which the monitor calls.
unfoldable pub give_up : Request → Resolver → Resolver
give_up req s = elim (s.asks req.self) [
  | host name ↦ getaddr_cancel name req s
  | address a ↦ gethost_cancel a req s
]

-- `request::on_read`, with the packet and the number of its bytes that `rascal_read` gives, if it
-- succeeds.
unfoldable pub on_read : Option (Memory × ℕ) → ℕ → Resolver → Option Resolver
on_read none fuel s = some s
on_read (some (m, size)) fuel s = elim (parse m (record { pos = 0; size = size })) [
  | none ↦ some s
  | some (h, c) ↦ elim (pick h.id s.requests.queue) [
    | none ↦ some s
    | some req ↦ on_event m fuel h c req s
  ]
]
