-- ===== src/Nt/Start/Codes.antt =====
-- What `rascal_connect_ex` returns for a stream connection: an id, or a code that is told apart from it.
use librascal.Prelude.{
  ℕ, ◌/◌, ◌%◌, ◌^◌, ◌≡◌, refl, ap, ◌∙◌, ◌⊎◌, inl, inr, Bool, true, false, Option, none, some, List,
  [], ◌∷◌, All, drop, ==_iff, ◌==◌, if◌then◌else◌, if_false, Bool-cases, Option-cases,
}
use Prim.Native.Nat.{bit_or}
use librascal.Prelude.Bits.{bit_or-div, bit_or-low}
use librascal.Object.{Object}
use librascal.Socket.{Sock}
use librascal.Srv.{isok}
use librascal.Connection.{Op, system_error}
use librascal.Connection.Open.{tcp, no_sock}
use librascal.Nt.{Host, System, new_host, hold}
use librascal.Nt.Start.{
  rec_not_implemented, rec_unavailable, Dialing, first_error, iocp_connect, connector, connect_st,
  Opening, refused, opening, outcome, Attempt, rascal_connect_ex,
}
use librascal.Nt.Worker.Run.{outgoing}

-- The mask makes an error of any code.
pub system_error-isok : (errno : ℕ) → isok (system_error errno) ≡ false
system_error-isok errno =
    let e : bit_or errno (2 ^ 31) / 2 ^ 31 % 2 ≡ 1 =
      ap (λ n. n % 2) (bit_or-div 31 errno (2 ^ 31)) ∙ bit_or-low (errno / 2 ^ 31) 1 refl in
    ap (λ n. n == 0) e

-- The errors that stop `iocp::connect`, in their order.
abbrev pub errors_of : Dialing → List (Option ℕ)
errors_of d =
    d.socket_error
    ∷ (if d.has_thread then none else some rec_unavailable)
    ∷ d.mode_error
    ∷ d.event_error
    ∷ d.connect_error
    ∷ d.post_error
    ∷ []

abbrev pub IsNone : Option ℕ → Type 0
IsNone o = o ≡ none

-- An address of four bytes, and no error.
abbrev pub Succeeds : Dialing → Sock → Type 0
Succeeds d target = (target.addr.size ≡ 4) × All IsNone (errors_of d)

first_error-cases :
    (errors : List (Option ℕ))
    → ((first_error errors ≡ none) × All IsNone errors)
      ⊎ ((errno : ℕ) × (first_error errors ≡ some errno) × (All IsNone errors → ⊥))
first_error-cases [] = inl (refl, tt)
first_error-cases (none ∷ errors) = elim (first_error-cases errors) [
  | inl (e, a) ↦ inl (e, (refl, a))
  | inr (errno, e, n) ↦ inr (errno, e, λ a. n a.1)
]
first_error-cases (some errno ∷ errors) = inr (errno, refl, λ a. absurd cc)

-- What `iocp::connect` comes to.
iocp_connect-cases :
    (d : Dialing) (h : Host)
    → ((iocp_connect d h ≡ (none, record h { open_socket = true })) × Succeeds d h.peer)
      ⊎ ((errno : ℕ) × ((iocp_connect d h).0 ≡ some errno) × (Succeeds d h.peer → ⊥))
unfolding iocp_connect
iocp_connect-cases d h = elim (Bool-cases (h.peer.addr.size == 4)) [
  | inr e ↦ inr (
    rec_not_implemented,
    rw (iocp_connect, e) refl,
    λ s. absurd (cc (e, (==_iff h.peer.addr.size 4).1 s.0)),
  )
  | inl e ↦ elim (Option-cases d.socket_error) [
    | inr (errno, p) ↦ inr (errno, rw (iocp_connect, e, p) refl, λ s. absurd (cc (p, s.1.0)))
    | inl p ↦ elim (first_error-cases (drop 1 (errors_of d))) [
      | inl (q, a) ↦ inl (
        rw (iocp_connect, e, p) (ap (λ (o : Option ℕ). (o, record h { open_socket = true })) q),
        ((==_iff h.peer.addr.size 4).0 e, (p, a)),
      )
      | inr (errno, q, n) ↦ inr (errno, rw (iocp_connect, e, p) q, λ s. n s.1.1)
    ]
  ]
]

connector_refuses :
    (r : Option ℕ × Host) (errno : ℕ)
    → r.0 ≡ some errno
    → outcome (connector r) ≡ refused (system_error errno)
unfolding connector
connector_refuses (none, h) errno e = absurd cc
connector_refuses (some code, h) errno e =
    if_false (isok (system_error code)) _ _ (system_error-isok code)
    ∙ ap (λ n. refused (system_error n)) same
  where
    same : code ≡ errno
    same = cc

-- `rascal_connect_ex` of a stream connection for which there is memory. If the address has four
-- bytes and no system call fails, it returns the object's id, and the connection waits to be
-- connected, with its one operation and its socket. If not, it returns a code that `rascal_isok`
-- tells from an id, and there is no connection.
pub rascal_connect_ex-Opens :
    (sys : System) (notify : ℕ → Op → Host → Option (Bool × Host)) (a : Attempt) (object : Object)
    (target : Sock)
    → a.object ≡ some object
    → (Succeeds a.dialing target
        × (rascal_connect_ex sys notify tcp a target ≡ some (opening (outgoing object target))))
      ⊎ ((code : ℕ) × (Succeeds a.dialing target → ⊥)
          × (rascal_connect_ex sys notify tcp a target ≡ some (refused code))
          × (isok code ≡ false))
unfolding rascal_connect_ex connect_st connector new_host
rascal_connect_ex-Opens sys notify a object target e =
    elim (iocp_connect-cases a.dialing
      (hold (record (new_host false false object no_sock) { peer = target }))) [
        | inl (q, s) ↦
            inl (s, rw e (ap (λ (r : Option ℕ × Host). Option.some (outcome (connector r))) q))
        | inr (errno, q, n) ↦ inr (
          system_error errno,
          n,
          rw e (ap (λ (o : Opening). Option.some o) (connector_refuses _ errno q)),
          system_error-isok errno,
        )
      ]
