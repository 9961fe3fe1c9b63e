-- ===== src/Connection/Datagram.antt =====
-- bsd/connection_dg.cc: connections of a datagram socket, whose buffers are packet chains.
use librascal.Prelude.{
  ℕ, zero, suc, Bool, true, false, not, Option, none, some, List, [], ◌∷◌, ◌++◌, length, take,
  if◌then◌else◌,
}
use librascal.Chain.{Allocator, remove}
use librascal.Packet as Packet
use librascal.Socket.{Sock, same_sock}
use librascal.Connection.{
  rop_close, rop_connect, rop_read, Call, Connection, Answer, Buffer, ◌>>=◌, cancel, system_error,
  disp,
}
use librascal.Connection.Stream.{
  End, closed, dry, broken, Sent, took, would_block, refused, receive, report, chunk,
}

abbrev pub packet_buffer : Buffer
packet_buffer = record { append = Packet.append; peek = Packet.peek }

abbrev pub rec_unknown_error : ℕ
rec_unknown_error = 0xe000_0004

module _ (new : Connection → Allocator) (client : List Call → Answer) where
  -- `connection_dg::on_error`
  unfoldable pub on_error_dg : ℕ → Connection → Option Connection
  on_error_dg errno c = do
    (kept, c') ← disp packet_buffer new client (system_error errno) rop_close c
    some (cancel c')

  -- The loop of `connection_dg::on_read` over what `recvfrom` gives, each block with its sender:
  -- `success` and the connection. A `closed` end does not come from `recvfrom`, and is as a block of
  -- no bytes.
  unfoldable pub read_loop_dg :
      List (Sock × List ℕ) → End → Bool → Connection → Option (Bool × Connection)
  read_loop_dg [] closed success c = some (success, c)
  read_loop_dg [] dry success c = some (success, c)
  read_loop_dg [] (broken errno) success c = do c' ← on_error_dg errno c; some (success, c')
  read_loop_dg ((from, []) ∷ blocks) end success c = some (success, c)
  read_loop_dg ((from, x ∷ xs) ∷ blocks) end success c =
      if not (same_sock c.peer from)
      then some (success, c)
      else (receive packet_buffer new client (x ∷ xs) c
          >>= (λ (c' : Connection). read_loop_dg blocks end true c'))

  -- `connection_dg::on_read`
  unfoldable pub on_read_dg : List (Sock × List ℕ) → End → Connection → Option Connection
  on_read_dg blocks end c =
      if c.object.cancelled
      then some c
      else (read_loop_dg blocks end false c >>= (λ (r : Bool × Connection).
          report packet_buffer new client (r.0) (r.1).object.id rop_read (r.1)))

  -- The loop of `connection_dg::on_write`, as that of a stream, for one packet a round.
  unfoldable pub write_loop_dg : (ℕ → Sent) → ℕ → Connection → Option Connection
  write_loop_dg send zero c = none
  write_loop_dg send (suc fuel) c =
      let out = Packet.peek c.wr chunk in
      elim out [
        | [] ↦ some c
        | x ∷ xs ↦
            let left : Connection = record c { wr = remove c.wr (length (x ∷ xs)) } in
            elim (send fuel) [
              | took n ↦ write_loop_dg send fuel (record left { sent = c.sent ++ take n (x ∷ xs) })
              | would_block ↦ write_loop_dg send fuel left
              | refused errno ↦ on_error_dg errno c
            ]
      ]

  -- `connection_dg::on_write`, which reports nothing.
  unfoldable pub on_write_dg : (ℕ → Sent) → ℕ → Connection → Option Connection
  on_write_dg send fuel c = if c.object.cancelled then some c else write_loop_dg send fuel c

  -- `connection_dg::connect`, with what `bind` returns, an errno where it fails: the code returned,
  -- and the connection.
  unfoldable pub connect_dg : Option ℕ → Sock → Connection → Option (ℕ × Connection)
  connect_dg (some errno) peer c = some (system_error errno, c)
  connect_dg none peer c = do
    (accepted, c') ←
        disp packet_buffer new client c.object.id rop_connect (record c { peer = peer })
    some (if accepted then 0 else rec_unknown_error, c')
