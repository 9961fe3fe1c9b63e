-- ===== src/Nt/Worker.antt =====
-- The events of overlapped operations: `on_event` and `callback` of nt/oreader.cc, owriter.cc,
-- oconnect.cc, oaccept.cc, oreader_dg.cc and owriter_dg.cc, as `iocp::Worker` and the thread of
-- nt/connectex.cc call them.
pub mod Steady
pub mod Calls
pub mod Writes
pub mod Appends
pub mod Talks
pub mod Left
pub mod Handlers
pub mod Closure
pub mod Run
use librascal.Prelude.{
  ℕ, zero, suc, Bool, true, false, ◌&&◌, ◌||◌, not, Option, none, some, List, [], ◌∷◌, ◌++◌, length,
  take, ◌==◌, if◌then◌else◌,
}
use librascal.Object.{Object}
use librascal.Socket.{Sock, same_sock}
use librascal.Connection.{Op, system_error, ◌>>=◌}
use librascal.Nt.{
  Operation, reading, writing, connecting, accepting, read_posted, write_posted, lost, Host, System,
  new_host, hold, pend, release, cancel, on_read, on_write, on_connect, on_accept,
}

-- What is known when an operation is over: the bytes that were read and their sender, the number of
-- bytes transferred, whether it failed, and the `psec` of the operation.
pub record Completion : Type 0 where
  pub got : List ℕ
  pub sender : Sock
  pub transferred : ℕ
  pub failed : Bool
  pub psec : ℕ

abbrev pub is_bad : Completion → Bool
is_bad e = e.failed || not (e.psec == 0)

-- The bytes of a write that the system has taken.
abbrev pub taken_by : Completion → List ℕ → Host → Host
taken_by e bytes h = record h { sent = h.sent ++ take e.transferred bytes }

module _ (sys : System) (notify : ℕ → Op → Host → Option (Bool × Host)) where
  -- `oreader::on_event`
  unfoldable pub oreader_event : Completion → Host → Option Host
  oreader_event e h =
      if is_bad e || ((length e.got == 0) && not (sys.is_dgram h))
      then cancel sys notify h
      else on_read sys notify e.got h

  -- `owriter::on_event`
  unfoldable pub owriter_event : List ℕ → Completion → Host → Option Host
  owriter_event bytes e h =
      if is_bad e || (e.transferred == 0)
      then cancel sys notify h
      else on_write sys notify (taken_by e bytes h)

  -- `oconnect::on_event`
  unfoldable pub oconnect_event : Completion → Host → Option Host
  oconnect_event e h = if is_bad e then cancel sys notify h else on_connect sys notify h

  -- `oreader_dg::callback`, which starts no other reading if the sender is not the peer.
  unfoldable pub oreader_dg_callback : Completion → Host → Option Host
  oreader_dg_callback e h =
      if e.failed || ((length e.got == 0) && not (sys.is_dgram h))
      then cancel sys notify h
      else if same_sock e.sender h.peer
      then on_read sys notify e.got h
      else some h

  -- `owriter_dg::callback`
  unfoldable pub owriter_dg_callback : List ℕ → Completion → Host → Option Host
  owriter_dg_callback bytes e h =
      if e.failed then cancel sys notify h else on_write sys notify (taken_by e bytes h)

  -- RM_BOUNCE: `oreader_dg::on_event` and `owriter_dg::on_event`. The thread does not delete an
  -- operation that could not be started.
  unfoldable pub bounce : Operation → Host → Option Host
  bounce op h =
      let failed : Option Host = cancel sys notify h >>= (λ (d : Host). some (pend lost d)) in
      if sys.starts h then some (pend op h) else failed

  -- An operation that is over: the handler, and the `delete` that follows.
  unfoldable pub handle : Operation → Completion → Host → Option Host
  handle reading e h =
      (if h.datagram then oreader_dg_callback e h else oreader_event e h)
      >>= (λ (d : Host). some (release d))
  handle (writing bytes) e h =
      (if h.datagram then owriter_dg_callback bytes e h else owriter_event bytes e h)
      >>= (λ (d : Host). some (release d))
  handle connecting e h = oconnect_event e h >>= (λ (d : Host). some (release d))
  handle accepting e h = some (pend accepting h)
  handle read_posted e h = bounce reading h
  handle (write_posted bytes) e h = bounce (writing bytes) h
  handle lost e h = some (pend lost h)

-- The operation at a place, and the others.
unfoldable pub take_out : ℕ → List Operation → Option (Operation × List Operation)
take_out i [] = none
take_out zero (op ∷ ops) = some (op, ops)
take_out (suc i) (op ∷ ops) = do (found, rest) ← take_out i ops; some (found, op ∷ rest)

-- A round of `iocp::Worker`, or a callback, or RM_BOUNCE, for the operation at a place of `pending`;
-- without one nothing was dequeued. An `oaccept` has its own event below.
unfoldable pub complete :
    System → (ℕ → Op → Host → Option (Bool × Host)) → ℕ → Completion → Host → Option Host
complete sys notify i e h = elim (take_out i h.pending) [
  | none ↦ some h
  | some (op, rest) ↦ handle sys notify op e (record h { pending = rest })
]

-- `oaccept::oaccept`, with the error of `port.socket` or AcceptEx: `rc`, and the listener.
unfoldable pub new_acceptor : Option ℕ → Host → ℕ × Host
new_acceptor none h = (0, pend accepting (hold h))
new_acceptor (some errno) h = (system_error errno, release (hold h))

-- `oaccept::on_event`: the listener after it has started another acceptor and deleted this one, and
-- the new connection, if `setsockopt` succeeds; none in its place is none made.
unfoldable pub oaccept_event :
    System
    → (ℕ → Op → Host → Option (Bool × Host))
    → Option ℕ
    → Bool
    → Object
    → Sock
    → Completion
    → Host
    → Option (Host × Option Host)
oaccept_event sys notify again updated object no_peer e h =
    let listener = release (new_acceptor again h).1 in
    let made : Option (Host × Option Host) =
      on_accept sys notify e.sender (new_host false false object no_peer)
      >>= (λ (d : Host). some (listener, some d)) in
    if updated && not (is_bad e) then made else some (listener, none)
