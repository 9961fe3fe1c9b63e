-- ===== src/Nt/Worker/Run.antt =====
-- A stream connection of the Windows port from its start on, whatever happens to it.
use librascal.Prelude.{
  ℕ, suc, ◌≡◌, ◌≢◌, refl, sym, subst, inl, inr, Bool, true, false, Option, none, some, List, [],
  ◌∷◌, length, arith, if◌then◌else◌, if_true, if_false, Bool-cases, Option-cases,
}
use librascal.Chain.Valid.{empty_chain-IsChain}
use librascal.Connection.{Op, ◌>>=◌}
use librascal.Connection.Valid.{Ends, Ends-bind, Ends-result}
use librascal.Nt.{
  Operation, reading, writing, connecting, accepting, read_posted, write_posted, lost, Host, System,
  release, pend,
}
use librascal.Nt.Worker.{Completion, taken_by, oreader_event, owriter_event, oconnect_event, handle}
use librascal.Nt.Worker.Steady.{
  in_flight, writes, IsSound, Flows, IsSteady, pend-IsSound, pend-Flows, Taken,
}
use librascal.Nt.Worker.Left.{left, left-IsSound, left-Flows, left-taken, left-posted}
use librascal.Nt.Worker.Calls.{Closes, Reports}
use librascal.Connection.{Call, Answer, Act}
use librascal.Object.{Object}
use librascal.Socket.{Sock}
use librascal.Nt.{act, disp, hold, new_host}
use librascal.Nt.Worker.{take_out, complete}
use librascal.Nt.Worker.Steady.{take_out-Taken, hold-IsSound}
use librascal.Nt.Worker.Talks.{IsCalm, act-IsSteady, disp-Closes, disp-Reports}
use librascal.Nt.Worker.Handlers.{
  on_read-IsSteady, on_write-IsSteady, on_connect-IsSteady, deleted-IsSteady, guarded,
  bounce-IsSteady,
}

-- What happens: a round of a worker for the operation at a place, or a call of the user, who holds the
-- connection during the call. Nothing happens to a deleted connection. The system takes all the
-- bytes of a write that does not fail.
pub data Happening : Type 0 where
  is_over : ℕ → Completion → Happening
  is_asked : Act → Happening

abbrev pub whole : Completion → Host → Completion
whole e h = record e { transferred = length (in_flight h.pending) }

module _ (sys : System) (notify : ℕ → Op → Host → Option (Bool × Host)) where
  unfoldable pub happen : Happening → Host → Option Host
  happen (is_over i e) h = complete sys notify i (whole e h) h
  happen (is_asked a) h =
      let asked : Option Host = act sys notify a (hold h) >>= (λ (d : Host). some (release d)) in
      if h.deleted then some h else asked

  unfoldable pub happens : List Happening → Host → Option Host
  happens [] h = some h
  happens (x ∷ xs) h = do h' ← happen x h; happens xs h'

module _ (sys : System) (memory : (h : Host) (n : ℕ) → sys.new h n ≢ none)
    (notify : ℕ → Op → Host → Option (Bool × Host)) (closes : Closes notify)
    (reports : Reports notify) where
  stream_only :
      (h : Host) (m m' : Option Host)
      → IsSound 1 h
      → Ends (IsSteady 1 false) m
      → Ends (IsSteady 1 false) (if h.datagram then m' else m)
  stream_only h m m' s p =
      subst (Ends (IsSteady 1 false)) (sym (if_false h.datagram _ _ s.stream)) p

  -- An operation that is waited for again.
  still :
      (op : Operation) (h : Host)
      → IsSound 1 h
      → writes op ≡ 0
      → Flows false h
      → IsSteady 0 false (pend op h)
  still op h s z f = (pend-IsSound 0 op h s, pend-Flows false op h z f)

  handle-IsSteady :
      (op : Operation) (rest : List Operation) (e : Completion) (h : Host)
      → Taken h.pending op rest
      → e.transferred ≡ length (in_flight h.pending)
      → IsSteady 0 false h
      → Ends (IsSteady 0 false) (handle sys notify op e (left h rest))
  unfolding handle oreader_event owriter_event oconnect_event
  handle-IsSteady reading rest e h t p (s, f) =
      let g = left-IsSound h reading rest t s f in
      deleted-IsSteady sys memory notify closes reports _ (
        stream_only (left h rest) _ _ g (
          guarded sys memory notify closes reports _ (left h rest) _ g (
            on_read-IsSteady sys memory notify closes reports 1 false e.got (left h rest)
              (g, left-Flows h reading rest t s f refl))))
  handle-IsSteady (writing bytes) rest e h t p (s, f) =
      let g = left-IsSound h (writing bytes) rest t s f in
      deleted-IsSteady sys memory notify closes reports _ (
        stream_only (left h rest) _ _ g (
          guarded sys memory notify closes reports _ (left h rest) _ g (
            on_write-IsSteady sys memory notify closes reports 1 (taken_by e bytes (left h rest)) (
              record {
                stream = g.stream;
                rd_valid = g.rd_valid;
                wr_valid = g.wr_valid;
                counted = g.counted;
              },
              left-taken h (writing bytes) rest t s f e bytes refl refl p,
            ))))
  handle-IsSteady connecting rest e h t p (s, f) =
      let g = left-IsSound h connecting rest t s f in
      deleted-IsSteady sys memory notify closes reports _ (
        guarded sys memory notify closes reports _ (left h rest) _ g (
          on_connect-IsSteady sys memory notify closes reports 1 false (left h rest)
            (g, left-Flows h connecting rest t s f refl)))
  handle-IsSteady accepting rest e h t p (s, f) =
      still accepting (left h rest) (left-IsSound h accepting rest t s f) refl
        (left-Flows h accepting rest t s f refl)
  handle-IsSteady read_posted rest e h t p (s, f) =
      let g = left-IsSound h read_posted rest t s f in
      bounce-IsSteady sys memory notify closes reports reading (left h rest) g
        (still reading (left h rest) g refl (left-Flows h read_posted rest t s f refl)).1
  handle-IsSteady (write_posted bytes) rest e h t p (s, f) =
      bounce-IsSteady sys memory notify closes reports (writing bytes) (left h rest)
        (left-IsSound h (write_posted bytes) rest t s f)
        (left-posted h (write_posted bytes) rest t s f bytes refl refl)
  handle-IsSteady lost rest e h t p (s, f) =
      still lost (left h rest) (left-IsSound h lost rest t s f) refl
        (left-Flows h lost rest t s f refl)

  complete-IsSteady :
      (i : ℕ) (e : Completion) (h : Host)
      → e.transferred ≡ length (in_flight h.pending)
      → IsSteady 0 false h
      → Ends (IsSteady 0 false) (complete sys notify i e h)
  unfolding complete
  complete-IsSteady i e h p q = elim (Option-cases (take_out i h.pending)) [
    | inl n ↦ rw (n, complete) q
    | inr ((op, rest), n) ↦
        rw (n, complete) (handle-IsSteady op rest e h (take_out-Taken i h.pending op rest n) p q)
  ]

  happen-IsSteady :
      (x : Happening) (h : Host)
      → IsSteady 0 false h
      → Ends (IsSteady 0 false) (happen sys notify x h)
  unfolding happen
  happen-IsSteady (is_over i e) h p = complete-IsSteady i (whole e h) h refl p
  happen-IsSteady (is_asked a) h p = elim (Bool-cases h.deleted) [
    | inl e ↦ subst (Ends (IsSteady 0 false)) (sym (if_true h.deleted _ _ e)) p
    | inr e ↦ subst (Ends (IsSteady 0 false)) (sym (if_false h.deleted _ _ e)) (
        deleted-IsSteady sys memory notify closes reports _
          (act-IsSteady sys memory notify closes 1 false a (hold h) (hold-IsSound 0 h p.0, p.1)))
  ]

  happens_from :
      (xs : List Happening) (h : Host)
      → IsSteady 0 false h
      → Ends (IsSteady 0 false) (happens sys notify xs h)
  unfolding happens
  happens_from [] h p = p
  happens_from (x ∷ xs) h p =
      Ends-bind (IsSteady 0 false) (IsSteady 0 false) _ _ (happen-IsSteady x h p)
        (λ d t. happens_from xs d t)

-- A stream connection when `rascal_connect_ex` has started to connect it.
abbrev pub outgoing : Object → Sock → Host
outgoing object peer = record (pend connecting (hold (new_host false false object peer))) {
  open_socket = true;
}

outgoing-IsSteady :
    (object : Object) (peer : Sock) → object.refc ≡ 0 → IsSteady 0 false (outgoing object peer)
unfolding new_host
outgoing-IsSteady object peer e = (
  record {
    stream = refl;
    rd_valid = empty_chain-IsChain;
    wr_valid = empty_chain-IsChain;
    counted = omega (arith, e);
  },
  inr (refl, inl (refl, refl, refl, refl)),
)

-- Take a stream connection that connects, a system with memory whose writes are whole unless they
-- fail, and a user who only reads when told of a closure. Whatever operations are over in whatever
-- order, each well or badly, and whatever the user asks in between, every call ends. Then the count
-- is the number of pending operations, and the connection is cancelled or its bytes were sent in
-- order: what was written is what was sent, then the write in flight, then the queue. At most one
-- write is in flight, and the queue is empty if none is.
pub happens-IsSteady :
    (sys : System) (client : List Call → Answer) (fuel : ℕ) (xs : List Happening) (object : Object)
    (peer : Sock)
    → ((h : Host) (n : ℕ) → sys.new h n ≢ none)
    → IsCalm client
    → object.refc ≡ 0
    → (d : Host) × (happens sys (disp sys client (suc (suc fuel))) xs (outgoing object peer)
        ≡ some d)
      × IsSteady 0 false d
happens-IsSteady sys client fuel xs object peer memory calm e = Ends-result (IsSteady 0 false) _ (
    happens_from sys memory (disp sys client (suc (suc fuel)))
      (disp-Closes sys memory client calm (suc fuel)) (disp-Reports sys memory client calm fuel) xs
      (outgoing object peer) (outgoing-IsSteady object peer e))
