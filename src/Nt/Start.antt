-- ===== src/Nt/Start.antt =====
-- How connections of the Windows port come to be: nt/connection_st.cc, nt/connection_dg.cc,
-- `iocp::connect` of nt/connectex.cc, nt/rascal_connect.cc and
-- nt/rascal_accept.cc.
pub mod Codes
use librascal.Prelude.{
  ℕ, zero, suc, ◌+◌, Bool, true, false, not, Option, none, some, List, [], ◌∷◌, ◌++◌, ◌==◌,
  if◌then◌else◌,
}
use librascal.Object.{Object}
use librascal.Socket.{Sock}
use librascal.Srv.{isok}
use librascal.Connection.{Op, rop_connect, system_error, ◌>>=◌}
use librascal.Connection.Datagram.{rec_unknown_error}
use librascal.Connection.Open.{rec_invalid_argument, no_sock, Transport, tcp, udp, unknown}
use librascal.Nt.{Operation, connecting, Host, System, new_host, hold, release, pend, spawn_reader}
use librascal.Nt.Worker.{new_acceptor}

abbrev pub rec_not_implemented : ℕ
rec_not_implemented = 0xe000_0001

abbrev pub rec_unavailable : ℕ
rec_unavailable = 0xe000_0005

abbrev pub wsaeinval : ℕ
wsaeinval = 10022

-- The errors of the system calls of `iocp::connect`, each none where the call succeeds, as
-- WSAEWOULDBLOCK of WSAConnect counts, and whether the thread runs.
pub record Dialing : Type 0 where
  pub socket_error : Option ℕ
  pub has_thread : Bool
  pub mode_error : Option ℕ
  pub event_error : Option ℕ
  pub connect_error : Option ℕ
  pub post_error : Option ℕ

abbrev pub first_error : List (Option ℕ) → Option ℕ
first_error [] = none
first_error (none ∷ errors) = first_error errors
first_error (some errno ∷ errors) = some errno

-- `iocp::connect`: the error that it leaves, and the connection with its socket.
unfoldable pub iocp_connect : Dialing → Host → Option ℕ × Host
iocp_connect d h =
    let thread_error : Option ℕ = if d.has_thread then none else some rec_unavailable in
    let dialled : Option ℕ × Host = elim d.socket_error [
      | some errno ↦ (some errno, record h { open_socket = false })
      | none ↦ (
        first_error
            (thread_error ∷ d.mode_error ∷ d.event_error ∷ d.connect_error ∷ d.post_error ∷ []),
        record h { open_socket = true },
      )
    ] in
    if h.peer.addr.size == 4 then dialled else (some rec_not_implemented, h)

-- `oconnect::oconnect`, once it holds the connection.
unfoldable pub connector : Option ℕ × Host → ℕ × Host
connector (some errno, h) = (system_error errno, release h)
connector (none, h) = (0, pend connecting h)

-- `connection_st::connect`
unfoldable pub connect_st : Dialing → Sock → Host → ℕ × Host
connect_st d peer h = connector (iocp_connect d (hold (record h { peer = peer })))

-- The errors of the system calls of `connection_st::accept` and of each `oaccept`.
pub record Listening : Type 0 where
  pub socket_error : Option ℕ
  pub reuse_error : Option ℕ
  pub bind_error : Option ℕ
  pub listen_error : Option ℕ
  pub acceptor_error : ℕ → Option ℕ

-- The loop that starts acceptors, from a number on: how many were started, and the listener.
unfoldable pub spawn_acceptors : (ℕ → Option ℕ) → ℕ → ℕ → Host → ℕ × Host
spawn_acceptors errors zero idx h = (0, h)
spawn_acceptors errors (suc n) idx h =
    let (rc, h₁) = new_acceptor (errors idx) h in
    let rest = spawn_acceptors errors n (suc idx) h₁ in
    (if isok rc then suc rest.0 else rest.0, rest.1)

-- `connection_st::accept`
unfoldable pub accept_st : Listening → Sock → Host → ℕ × Host
accept_st l peer h =
    let h₁ : Host = record h { open_socket = true } in
    let h₂ : Host = record h₁ { peer = peer } in
    let started = spawn_acceptors l.acceptor_error 16 0 h₂ in
    let bound : ℕ × Host = elim (first_error (l.bind_error ∷ l.listen_error ∷ [])) [
      | some errno ↦ (system_error errno, h₂)
      | none ↦ (if started.0 == 0 then rec_unknown_error else 0, started.1)
    ] in
    elim l.socket_error [
      | some errno ↦ (system_error errno, record h { open_socket = false })
      | none ↦ elim l.reuse_error [ some errno ↦ (system_error errno, h₁) | none ↦ bound ]
    ]

-- `connection_dg::accept`
abbrev pub accept_dg : Sock → Host → ℕ × Host
accept_dg peer h = (rec_not_implemented, h)

module _ (sys : System) (notify : ℕ → Op → Host → Option (Bool × Host)) where
  -- What follows the report of `connection_dg::connect`.
  unfoldable pub welcome_dg : Bool → Host → Option (ℕ × Host)
  welcome_dg false h = some (rec_unknown_error, h)
  welcome_dg true h = spawn_reader sys notify h >>= (λ (d : Host). some (0, d))

  -- `connection_dg::connect`, with the error of `bind`.
  unfoldable pub connect_dg : Option ℕ → Sock → Host → Option (ℕ × Host)
  connect_dg bind_error peer h =
      let h₁ : Host = record h { peer = peer } in
      let told : Option (ℕ × Host) =
        notify h.object.id rop_connect h₁ >>= (λ (r : Bool × Host). welcome_dg (r.0) (r.1)) in
      if not h.open_socket
      then some (system_error wsaeinval, h₁)
      else elim bind_error [ some errno ↦ some (system_error errno, h₁) | none ↦ told ]

-- What the public calls do: an error code, with no object left; or an object, whose id they return.
pub data Opening : Type 0 where
  refused : ℕ → Opening
  opening : Host → Opening

abbrev pub outcome : ℕ × Host → Opening
outcome r = if isok (r.0) then opening (r.1) else refused (r.0)

-- What is known of the system when a connection is opened: the object that the constructor made,
-- none with an error where there was no memory, whether a datagram connection gets a socket, and the
-- errors of the system calls.
pub record Attempt : Type 0 where
  pub object : Option Object
  pub errno : ℕ
  pub opens : Bool
  pub dialing : Dialing
  pub bind_error : Option ℕ
  pub listening : Listening

-- `rascal_connect_ex` of nt/rascal_connect.cc
unfoldable pub rascal_connect_ex :
    System → (ℕ → Op → Host → Option (Bool × Host)) → Transport → Attempt → Sock → Option Opening
rascal_connect_ex sys notify unknown a target = some (refused rec_invalid_argument)
rascal_connect_ex sys notify tcp a target = elim a.object [
  | none ↦ some (refused (system_error a.errno))
  | some object ↦ some (outcome (connect_st a.dialing target (new_host false false object no_sock)))
]
rascal_connect_ex sys notify udp a target = elim a.object [
  | none ↦ some (refused (system_error a.errno))
  | some object ↦
      connect_dg sys notify a.bind_error target (new_host true a.opens object no_sock)
      >>= (λ (r : ℕ × Host). some (outcome r))
]

-- `rascal_accept` of nt/rascal_accept.cc
unfoldable pub rascal_accept : Attempt → Sock → Opening
rascal_accept a peer = elim a.object [
  | none ↦ refused (system_error a.errno)
  | some object ↦ outcome (accept_st a.listening peer (new_host false false object no_sock))
]
