-- ===== src/Connection/Open.antt =====
-- How connections come to be: `connect` of bsd/connection.cc and bsd/connection_in.cc, the accepting
-- of connections, bsd/rascal_connect.cc and bsd/rascal_accept.cc.
use librascal.Prelude.{ℕ, Bool, Option, none, some, List, [], ◌∷◌, ◌++◌, if◌then◌else◌}
use librascal.Chain.{Allocator}
use librascal.Object.{Object}
use librascal.Socket.{Sock}
use librascal.Srv.{isok}
use librascal.Util.Ftspec.{Ftspec}
use librascal.Connection.{
  cm_connect, cm_accept, rop_accept, rop_listen, Call, Connection, Answer, Buffer, ◌>>=◌,
  system_error, rec_cancelled, new_connection, perform, disp,
}
use librascal.Connection.Datagram.{connect_dg}

-- What a system call returns: success, EINPROGRESS, or another error.
pub data Status : Type 0 where
  success : Status
  in_progress : Status
  failure : ℕ → Status

abbrev pub rec_invalid_argument : ℕ
rec_invalid_argument = 0xe000_0003

-- EINPROGRESS, where it is not let through, is an error as any other.
abbrev pub einprogress : ℕ
einprogress = 115

-- `connection::connect`, at a time: the code returned, and the connection.
unfoldable pub connect : Status → Ftspec → Sock → Connection → ℕ × Connection
connect (failure errno) now peer c = (system_error errno, record c { peer = peer })
connect success now peer c = (0, record c { peer = peer; mode = cm_connect; ts = now })
connect in_progress now peer c = (0, record c { peer = peer; mode = cm_connect; ts = now })

-- `connection_in::connect`, with what `bind` and `listen` return.
unfoldable pub connect_in : Status → Status → Sock → Connection → ℕ × Connection
connect_in (failure errno) listened peer c = (system_error errno, record c { peer = peer })
connect_in in_progress listened peer c = (system_error einprogress, record c { peer = peer })
connect_in success (failure errno) peer c = (system_error errno, record c { peer = peer })
connect_in success success peer c = (0, record c { peer = peer; mode = cm_accept })
connect_in success in_progress peer c = (0, record c { peer = peer; mode = cm_accept })

-- `sock_t()`
abbrev pub no_sock : Sock
no_sock = record { addr = record { octets = []; size = 0 }; port = 0 }

-- What the two public calls do: an error code, with no object left; or an object, whose id they
-- return.
pub data Opened : Type 0 where
  rejected : ℕ → Opened
  opened : Connection → Opened

module _ (b : Buffer) (new : Connection → Allocator) (client : List Call → Answer) where
  -- `connection_in::on_read` over the sockets that `accept` gives, each with the object made for it:
  -- the connections kept, and the listener. The new connections keep the peer that `sock_t()` makes.
  unfoldable pub accept_loop :
      List (Object × Sock) → Ftspec → Connection → Option (List Connection × Connection)
  accept_loop [] now c = some ([], c)
  accept_loop ((object, from) ∷ rest) now c =
      let calls = c.calls ++ record { code = object.id; op = rop_accept } ∷ [] in
      let answer = client calls in
      do
        conn ← perform b new client answer.acts (new_connection object no_sock now)
        (kept, c') ← accept_loop rest now (record c { calls = calls })
        some (if answer.accepts then conn ∷ kept else kept, c')

  -- `rascal_accept` of bsd/rascal_accept.cc; `object` is what the constructor made, none where there
  -- was no memory.
  unfoldable pub rascal_accept : Option Object → ℕ → Status → Status → Ftspec → Sock → Option Opened
  rascal_accept none errno bound listened now peer = some (rejected (system_error errno))
  rascal_accept (some object) errno bound listened now peer =
      let (rid, c) = connect_in bound listened peer (new_connection object no_sock now) in
      let listening : Option Opened =
        disp b new client object.id rop_listen c >>= (λ (r : Bool × Connection).
          some (if r.0 then opened (r.1) else rejected rec_cancelled)) in
      if isok rid then listening else some (rejected rid)

-- The argument `mode` of `rascal_connect_ex`; NULL is "tcp".
pub data Transport : Type 0 where
  tcp udp unknown : Transport

-- `rascal_connect_ex`, with what `connect` or, for a datagram socket, `bind` returns.
unfoldable pub rascal_connect_ex :
    (Connection → Allocator)
    → (List Call → Answer)
    → Transport
    → Option Object
    → ℕ
    → Status
    → Option ℕ
    → Ftspec
    → Sock
    → Option Opened
rascal_connect_ex new client unknown object errno status bound now target =
    some (rejected rec_invalid_argument)
rascal_connect_ex new client tcp none errno status bound now target =
    some (rejected (system_error errno))
rascal_connect_ex new client udp none errno status bound now target =
    some (rejected (system_error errno))
rascal_connect_ex new client tcp (some object) errno status bound now target =
    let (rc, c) = connect status now target (new_connection object no_sock now) in
    some (if isok rc then opened c else rejected rc)
rascal_connect_ex new client udp (some object) errno status bound now target = do
  (rc, c) ← connect_dg new client bound target (new_connection object no_sock now)
  some (if isok rc then opened c else rejected rc)
