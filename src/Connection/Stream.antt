-- ===== src/Connection/Stream.antt =====
-- The handlers of bsd/connection.cc for events of a stream socket.
pub mod Drain
pub mod Fill
pub mod Sending
use librascal.Prelude.{
  ℕ, zero, suc, ◌+◌, Bool, true, false, Option, none, some, List, [], ◌∷◌, ◌++◌, length, take,
  if◌then◌else◌,
}
use librascal.Chain.{Allocator, remove}
use librascal.Connection.{
  Mode, cm_normal, cm_connect, cm_accept, Op, rop_close, rop_connect, rop_read, rop_write, Call,
  Connection, Answer, Buffer, ◌>>=◌, cancel, write_to, disp, on_error,
}

-- What `recv` gives after some blocks of bytes: the end of the stream, EWOULDBLOCK or EAGAIN, or
-- another error.
pub data End : Type 0 where
  closed : End
  dry : End
  broken : ℕ → End

-- What `send` returns: a number of bytes, -1 with EWOULDBLOCK or EAGAIN, or another error.
pub data Sent : Type 0 where
  took : ℕ → Sent
  would_block : Sent
  refused : ℕ → Sent

-- The size of the array in `on_write`.
unfoldable pub chunk : ℕ
chunk = 4096

module _ (b : Buffer) (new : Connection → Allocator) (client : List Call → Answer) where
  -- `rd->append(tmp, length)`, whose result is not looked at.
  unfoldable pub receive : List ℕ → Connection → Option Connection
  receive block c = do (done, rd) ← b.append (new c) c.rd block; some (record c { rd = rd })

  -- The loop of `on_read` over what `recv` gives: `success`, `closed` and the connection. A block
  -- of no bytes is the end of the stream.
  unfoldable pub read_loop :
      List (List ℕ) → End → Bool → Connection → Option (Bool × Bool × Connection)
  read_loop [] closed success c = some (success, true, c)
  read_loop [] dry success c = some (success, false, c)
  read_loop [] (broken errno) success c = do
    c' ← on_error b new client errno c
    some (success, false, c')
  read_loop ([] ∷ blocks) end success c = some (success, true, c)
  read_loop ((x ∷ xs) ∷ blocks) end success c = do
    c' ← receive (x ∷ xs) c
    read_loop blocks end true c'

  -- The report of a new connection, `disp(get_id(), &peer, rop_connect, context)`: whether the
  -- handler goes on, and the connection, which is cancelled if it does not.
  unfoldable pub introduce : Connection → Option (Bool × Connection)
  introduce c = elim c.mode [
    | cm_connect ↦ do
      (accepted, c') ← disp b new client c.object.id rop_connect c
      some (if accepted then (true, record c' { mode = cm_normal }) else (false, cancel c'))
    | _ ↦ some (true, c)
  ]

  -- A report under an `if`.
  unfoldable pub report : Bool → ℕ → Op → Connection → Option Connection
  report told code op c =
      if told
      then (disp b new client code op c >>= (λ (r : Bool × Connection). some (r.1)))
      else some c

  -- The reports at the end of `on_read`.
  unfoldable pub report_read : Bool → Bool → Connection → Option Connection
  report_read success shut c = do
    (goes_on, c₁) ← if success then introduce c else some (true, c)
    c₂ ← report (if goes_on then success else false) c₁.object.id rop_read c₁
    c₃ ← report (if goes_on then shut else false) 0 rop_close c₂
    some (if goes_on then (if shut then cancel c₃ else c₃) else c₁)

  -- `connection::on_read`
  unfoldable pub on_read : List (List ℕ) → End → Connection → Option Connection
  on_read blocks end c =
      if c.object.cancelled
      then some c
      else (read_loop blocks end false c
          >>= (λ (r : Bool × Bool × Connection). report_read (r.0) (r.1) (r.2)))

  -- The loop of `on_write`: `success` and the connection. `send` gives what the rounds return, by
  -- the fuel left; a round takes a byte at least from the queue, so its length and one is enough.
  unfoldable pub write_loop : (ℕ → Sent) → ℕ → Bool → Connection → Option (Bool × Connection)
  write_loop send zero success c = none
  write_loop send (suc fuel) success c =
      let out = b.peek c.wr chunk in
      elim out [
        | [] ↦ some (success, c)
        | x ∷ xs ↦
            let left : Connection = record c { wr = remove c.wr (length (x ∷ xs)) } in
            elim (send fuel) [
              | took n ↦
                  write_loop send fuel true (record left { sent = c.sent ++ take n (x ∷ xs) })
              | would_block ↦ write_loop send fuel true left
              | refused errno ↦
                  on_error b new client errno c >>= (λ (c' : Connection). some (success, c'))
            ]
      ]

  -- The reports at the end of `on_write`.
  unfoldable pub report_write : Bool → Connection → Option Connection
  report_write success c = do
    (goes_on, c₁) ← introduce c
    report (if goes_on then success else false) c₁.object.id rop_write c₁

  -- `connection::on_write`
  unfoldable pub on_write : (ℕ → Sent) → ℕ → Connection → Option Connection
  on_write send fuel c =
      if c.object.cancelled
      then some c
      else (write_loop send fuel false c >>= (λ (r : Bool × Connection). report_write (r.0) (r.1)))
