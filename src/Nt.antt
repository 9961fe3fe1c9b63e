-- ===== src/Nt.antt =====
-- nt/connection.h, nt/connection.cc and the operations of nt/connection_st.h and nt/connection_dg.h:
-- a connection of the Windows port and its overlapped operations.
pub mod Worker
pub mod Start
pub mod Connector
use librascal.Prelude.{
  ℕ, zero, suc, Bool, true, false, ◌&&◌, ◌||◌, not, Option, none, some, List, [], ◌∷◌, ◌++◌, length,
  ◌==◌, if◌then◌else◌,
}
use librascal.Chain as Chain
use librascal.Chain.{DataChain, Allocator, empty_chain, remove, get_size}
use librascal.Chain.Line.{Line, gets}
use librascal.Packet as Packet
use librascal.Object as Object
use librascal.Object.{Object, incref, less_one, kills}
use librascal.Socket.{Sock}
use librascal.Connection.{
  Op, rop_accept, rop_close, rop_connect, rop_read, rop_write, Call, Answer, Act, write, read,
  reads, cancels, Buffer, stream_buffer, system_error, ◌>>=◌,
}
use librascal.Connection.Datagram.{packet_buffer, rec_unknown_error}

-- An `overlapped` that has been started, by its class; `posted` ones wait for the thread of
-- nt/connectex.cc, and a lost one waits for nothing and is never deleted.
pub data Operation : Type 0 where
  reading : Operation
  writing : List ℕ → Operation
  connecting : Operation
  accepting : Operation
  read_posted : Operation
  write_posted : List ℕ → Operation
  lost : Operation

-- The members of `connection`, its class, and its operations, each of which holds a reference.
-- `deleted` is set where the object is; `calls`, `written` and `sent` are no members: the calls of
-- the dispatcher so far, the bytes given to `write` and those that the system has taken.
pub record Host : Type 0 where
  pub object : Object
  pub datagram : Bool
  pub open_socket : Bool
  pub peer : Sock
  pub rdb : DataChain
  pub wrb : DataChain
  pub is_writing : Bool
  pub pending : List Operation
  pub deleted : Bool
  pub calls : List Call
  pub written : List ℕ
  pub sent : List ℕ

-- What the system does next: the memory for an `append`; whether it starts the next ReadFile,
-- WriteFile, WSARecvFrom or WSASendTo, and whether a message reaches the thread; what `getsockopt`
-- gives for SO_ERROR, none where it fails; and whether `get_mode` gives SOCK_DGRAM.
pub record System : Type 0 where
  pub new : Host → Allocator
  pub starts : Host → Bool
  pub posts : Host → Bool
  pub so_error : Host → Option ℕ
  pub is_dgram : Host → Bool

-- `connection_st::connection_st` and `connection_dg::connection_dg`; the second opens its socket.
unfoldable pub new_host : Bool → Bool → Object → Sock → Host
new_host datagram opens object peer = record {
  object = object;
  datagram = datagram;
  open_socket = if datagram then opens else false;
  peer = peer;
  rdb = empty_chain;
  wrb = empty_chain;
  is_writing = false;
  pending = [];
  deleted = false;
  calls = [];
  written = [];
  sent = [];
}

abbrev pub buffer_of : Host → Buffer
buffer_of h = if h.datagram then packet_buffer else stream_buffer

abbrev pub extract_from : Host → DataChain → ℕ → List ℕ × DataChain
extract_from h c size = if h.datagram then Packet.extract c size else Chain.extract c size

-- `overlapped::overlapped`, which takes a reference, and `overlapped::~overlapped`.
abbrev pub hold : Host → Host
hold h = record h { object = incref h.object }

unfoldable pub release : Host → Host
release h = record h { object = less_one h.object; deleted = h.deleted || kills h.object }

abbrev pub pend : Operation → Host → Host
pend op h = record h { pending = h.pending ++ op ∷ [] }

-- `connection::get_rq_size` and `connection::get_sq_size`
abbrev pub get_rq_size : Host → ℕ
get_rq_size h = get_size h.rdb

abbrev pub get_sq_size : Host → ℕ
get_sq_size h = get_size h.wrb

-- `connection::read` and `connection::reads`
unfoldable pub read_from : ℕ → Host → List ℕ × Host
read_from size h = let out = extract_from h h.rdb size in (out.0, record h { rdb = out.1 })

unfoldable pub reads_from : ℕ → ℕ → Host → Line × Host
reads_from size flags h = let out = gets h.rdb size flags in (out.0, record h { rdb = out.1 })

-- In what follows `notify` is a call of the dispatcher, which gives what it returns and the
-- connection after what the user has done there.
module _ (sys : System) (notify : ℕ → Op → Host → Option (Bool × Host)) where
  -- `connection::get_error`
  unfoldable pub get_error : Host → ℕ
  get_error h = elim (sys.so_error h) [
    | none ↦ rec_unknown_error
    | some code ↦ if code == 0 then 0 else system_error code
  ]

  -- `connection::cancel`, which overrides `object::cancel`.
  unfoldable pub cancel : Host → Option Host
  cancel h =
      let told : Option Host = notify (get_error h) rop_close h >>= (λ (r : Bool × Host).
        some (record (r.1) { object = Object.cancel (r.1).object; open_socket = false })) in
      if h.object.cancelled then some h else told

  -- `oreader::oreader` on a connection that it holds.
  unfoldable pub new_reader : Host → Option Host
  new_reader h =
      let failed : Option Host = cancel (hold h) >>= (λ (d : Host). some (release d)) in
      if sys.starts (hold h) then some (pend reading (hold h)) else failed

  -- The end of `owriter::owriter`, with the bytes taken from the buffer.
  unfoldable pub start_write : List ℕ → Host → Option Host
  start_write [] h = some (release h)
  start_write (x ∷ xs) h =
      let busy : Host = record h { is_writing = true } in
      let failed : Option Host = cancel busy >>= (λ (d : Host). some (release d)) in
      if sys.starts busy then some (pend (writing (x ∷ xs)) busy) else failed

  -- `owriter::owriter`
  unfoldable pub new_writer : Bool → Host → Option Host
  new_writer force_idle h =
      let h₁ : Host = record (hold h) { is_writing = if force_idle then false else h.is_writing } in
      let out = extract_from h h.wrb 2048 in
      let started = start_write (out.0) (record h₁ { wrb = out.1 }) in
      if h₁.is_writing then some (release h₁) else started

  -- `iocp::post_ex` of an operation.
  unfoldable pub post_ex : Operation → Host → Host
  post_ex op h = pend (if sys.posts h then op else lost) h

  -- `oreader_dg::oreader_dg`
  abbrev pub new_reader_dg : Host → Host
  new_reader_dg h = post_ex read_posted (hold h)

  unfoldable pub post_write : List ℕ → Host → Host
  post_write [] h = release h
  post_write (x ∷ xs) h = post_ex (write_posted (x ∷ xs)) (record h { is_writing = true })

  -- `owriter_dg::owriter_dg`; the array has four bytes less.
  unfoldable pub new_writer_dg : Bool → Host → Host
  new_writer_dg force_idle h =
      let h₁ : Host = record (hold h) { is_writing = if force_idle then false else h.is_writing } in
      let out = extract_from h h.wrb 2044 in
      if h₁.is_writing then release h₁ else post_write (out.0) (record h₁ { wrb = out.1 })

  -- The virtual `spawn_reader` and `spawn_writer`.
  unfoldable pub spawn_reader : Host → Option Host
  spawn_reader h = if h.datagram then some (new_reader_dg h) else new_reader h

  unfoldable pub spawn_writer : Host → Option Host
  spawn_writer h = if h.datagram then some (new_writer_dg false h) else new_writer false h

  -- `connection::write`
  unfoldable pub write_to : List ℕ → Host → Option Host
  write_to src h = do
    (done, wrb) ← (buffer_of h).append (sys.new h) h.wrb src
    (let h₁ : Host = record h { wrb = wrb; written = h.written ++ src } in
        if done && not h.is_writing then spawn_writer h₁ else some h₁)

  -- `connection::on_read`, which does not look at what `append` returns.
  unfoldable pub on_read : List ℕ → Host → Option Host
  on_read src h = do
    (done, rdb) ← (buffer_of h).append (sys.new h) h.rdb src
    (kept, h₁) ← notify h.object.id rop_read (record h { rdb = rdb })
    spawn_reader h₁

  -- `connection::on_write`
  unfoldable pub on_write : Host → Option Host
  on_write h = do
    (kept, h₁) ← notify h.object.id rop_write h
    spawn_writer (record h₁ { is_writing = false })

  -- What follows a report that the user may reject.
  unfoldable pub welcome : Bool → Host → Option Host
  welcome false h = cancel h
  welcome true h = spawn_reader h

  -- `connection::on_connect`
  unfoldable pub on_connect : Host → Option Host
  on_connect h = notify h.object.id rop_connect h >>= (λ (r : Bool × Host). welcome (r.0) (r.1))

  -- `connection::on_accept`
  unfoldable pub on_accept : Sock → Host → Option Host
  on_accept peer h =
      notify h.object.id rop_accept (record h { open_socket = true; peer = peer })
      >>= (λ (r : Bool × Host). welcome (r.0) (r.1))

  -- One call of the user; `rascal_cancel` calls the virtual `cancel`.
  unfoldable pub act : Act → Host → Option Host
  act (write src) h = write_to src h
  act (read size) h = some (read_from size h).1
  act (reads size flags) h = some (reads_from size flags h).1
  act cancels h = cancel h

unfoldable pub perform : (Act → Host → Option Host) → List Act → Host → Option Host
perform one [] h = some h
perform one (a ∷ acts) h = do h' ← one a h; perform one acts h'

-- A call of `disp`. It is made again from the calls that the user makes there, as deep as the fuel.
unfoldable pub disp : System → (List Call → Answer) → ℕ → ℕ → Op → Host → Option (Bool × Host)
disp sys client zero code op h = none
disp sys client (suc fuel) code op h =
    let calls = h.calls ++ record { code = code; op = op } ∷ [] in
    let answer = client calls in
    do
      h' ← perform (act sys (disp sys client fuel)) answer.acts (record h { calls = calls })
      some (answer.accepts, h')
