-- ===== src/Connection/Protocol/Run.antt =====
-- The life of a stream connection: any sequence of events and of calls of the user.
use librascal.Prelude.{
  ℕ, suc, zero, ◌<◌, ◌≡◌, refl, sym, ap, subst, ◌∙◌, Bool, true, false, Option, some, List, [], ◌∷◌,
  length, take, drop, if◌then◌else◌, inl, inr, arith,
}
use librascal.Chain.{DataChain, Allocator, remove, peek}
use librascal.Chain.Valid.{IsChain, contents, empty_chain-IsChain}
use librascal.Chain.Read.{remove-drop, peek-take, drop_taken}
use librascal.Object.{Object}
use librascal.Socket.{Sock}
use librascal.Util.Ftspec.{Ftspec}
use librascal.Connection.{
  Connection, Act, Call, Answer, stream_buffer, ◌>>=◌, perform, on_pulse, new_connection,
}
use librascal.Connection.Open.{connect, success}
use librascal.Connection.Valid.{Ends, Ends-bind}
use librascal.Connection.Buffers.{stream-IsBuffer}
use librascal.Connection.Stream.{
  End, closed, dry, broken, Sent, took, would_block, refused, chunk, receive, read_loop,
  report_read, on_read, write_loop, report_write, on_write,
}
use librascal.Connection.Stream.Drain.{
  List-cases, shorter_queue, taken, offered, write_stop, write_step, write_refused,
}
use librascal.Connection.Protocol.{IsPolite}
use librascal.Connection.Protocol.Handlers.{
  acts-IsPolite, on_error-IsPolite, on_pulse-IsPolite, report_read-IsPolite, report_write-IsPolite,
}

-- What may happen to a connection: the worker's pulse at a time, with the limit of RO_CONN_TIMEOUT;
-- bytes that arrive; room to send; and calls of the user from another thread.
pub data Happening : Type 0 where
  pulse : Ftspec → ℕ → Happening
  arrives : List (List ℕ) → End → Happening
  has_room : (ℕ → Sent) → Happening
  user : List Act → Happening

module _ (new : Connection → Allocator) (client : List Call → Answer) where
  -- One of these; the fuel of `on_write` is the number of bytes held and one.
  abbrev pub happen : Happening → Connection → Option Connection
  happen (pulse now limit) c = on_pulse stream_buffer new client now limit c
  happen (arrives blocks end) c = on_read stream_buffer new client blocks end c
  happen (has_room send) c = on_write stream_buffer new client send (suc (length (contents c.wr))) c
  happen (user acts) c = perform stream_buffer new client acts c

  abbrev pub run : List Happening → Connection → Option Connection
  run [] c = some c
  run (h ∷ hs) c = happen h c >>= (λ (c' : Connection). run hs c')

  receive-IsPolite :
      (block : List ℕ) (c : Connection)
      → IsPolite c
      → Ends IsPolite (receive stream_buffer new client block c)
  unfolding receive
  receive-IsPolite block c p =
      Ends-bind (λ (r : Bool × DataChain). IsChain r.1) IsPolite _ _
        (stream-IsBuffer.appends (new c) c.rd block p.rd_valid)
        (λ r v. record { rd_valid = v; wr_valid = p.wr_valid; order = p.order })

  read_loop-IsPolite :
      (blocks : List (List ℕ)) (end : End) (s : Bool) (c : Connection)
      → IsPolite c
      → Ends
          (λ (r : Bool × Bool × Connection). IsPolite r.2)
          (read_loop stream_buffer new client blocks end s c)
  unfolding read_loop
  read_loop-IsPolite [] closed s c p = p
  read_loop-IsPolite [] dry s c p = p
  read_loop-IsPolite [] (broken errno) s c p =
      Ends-bind IsPolite (λ (r : Bool × Bool × Connection). IsPolite r.2) _ _
        (on_error-IsPolite new client errno c p) (λ d q. q)
  read_loop-IsPolite ([] ∷ blocks) end s c p = p
  read_loop-IsPolite ((x ∷ xs) ∷ blocks) end s c p =
      Ends-bind IsPolite (λ (r : Bool × Bool × Connection). IsPolite r.2) _ _
        (receive-IsPolite (x ∷ xs) c p) (λ d q. read_loop-IsPolite blocks end true d q)

  pub on_read-IsPolite :
      (blocks : List (List ℕ)) (end : End) (c : Connection)
      → IsPolite c
      → Ends IsPolite (on_read stream_buffer new client blocks end c)
  unfolding on_read
  on_read-IsPolite blocks end c p = go c.object.cancelled
    where
      go :
          (cancelled : Bool)
          → Ends IsPolite (
              if cancelled
              then some c
              else (read_loop stream_buffer new client blocks end false c
                  >>= (λ (r : Bool × Bool × Connection).
                      report_read stream_buffer new client (r.0) (r.1) (r.2))))
      go true = p
      go false =
          Ends-bind (λ (r : Bool × Bool × Connection). IsPolite r.2) IsPolite _ _
            (read_loop-IsPolite blocks end false c p)
            (λ r q. report_read-IsPolite new client r.0 r.1 r.2 q)

  offered-IsPolite : (c : Connection) (out got : List ℕ) → IsPolite c → IsPolite (offered c out got)
  offered-IsPolite c out got p = record {
    rd_valid = p.rd_valid;
    wr_valid = (remove-drop c.wr (length out) p.wr_valid).0;
    order = p.order;
  }

  write_loop-IsPolite :
      (send : ℕ → Sent) (fuel : ℕ) (s : Bool) (c : Connection)
      → IsPolite c
      → length (contents c.wr) < fuel
      → Ends
          (λ (r : Bool × Connection). IsPolite r.1)
          (write_loop stream_buffer new client send fuel s c)
  write_loop-IsPolite send zero s c p h = absurd (omega arith)
  write_loop-IsPolite send (suc fuel) s c p h = elim (List-cases (peek c.wr chunk)) [
    | inl e ↦ subst (Ends After) (sym (write_stop new client send fuel s c e)) p
    | inr (x, xs, e) ↦
        let r = remove-drop c.wr (length (x ∷ xs)) p.wr_valid in
        let t : take chunk (contents c.wr) ≡ x ∷ xs = sym (peek-take c.wr chunk) ∙ e in
        let q : contents (remove c.wr (length (x ∷ xs))) ≡ drop chunk (contents c.wr) =
          r.1
          ∙ ap (λ (l : List ℕ). drop (length l) (contents c.wr)) (sym t)
          ∙ drop_taken chunk (contents c.wr) in
        let l = shorter_queue (contents c.wr) x xs _ fuel t q h in
        go x xs e (send fuel) refl (λ got.
          write_loop-IsPolite send fuel true (offered c (x ∷ xs) got)
            (offered-IsPolite c (x ∷ xs) got p) l)
  ]
    where
      After : (Bool × Connection) → Type 0
      After r = IsPolite r.1

      go :
          (x : ℕ) (xs : List ℕ)
          → peek c.wr chunk ≡ x ∷ xs
          → (r : Sent) → send fuel ≡ r
          → ((got : List ℕ)
              → Ends After
                  (write_loop stream_buffer new client send fuel true (offered c (x ∷ xs) got)))
          → Ends After (write_loop stream_buffer new client send (suc fuel) s c)
      go x xs e (took n) z f =
          subst (Ends After) (sym (write_step new client send fuel s c x xs e (took n) z tt))
            (f (taken (took n) (x ∷ xs)))
      go x xs e would_block z f =
          subst (Ends After) (sym (write_step new client send fuel s c x xs e would_block z tt))
            (f (taken would_block (x ∷ xs)))
      go x xs e (refused errno) z f =
          subst (Ends After) (sym (write_refused new client send fuel s c x xs errno e z))
            (Ends-bind IsPolite After _ _ (on_error-IsPolite new client errno c p) (λ d q. q))

  pub on_write-IsPolite :
      (send : ℕ → Sent) (c : Connection)
      → IsPolite c
      → Ends IsPolite (on_write stream_buffer new client send (suc (length (contents c.wr))) c)
  unfolding on_write
  on_write-IsPolite send c p = go c.object.cancelled
    where
      go :
          (cancelled : Bool)
          → Ends IsPolite (
              if cancelled
              then some c
              else (write_loop stream_buffer new client send (suc (length (contents c.wr))) false c
                  >>= (λ (r : Bool × Connection).
                      report_write stream_buffer new client (r.0) (r.1))))
      go true = p
      go false =
          Ends-bind (λ (r : Bool × Connection). IsPolite r.1) IsPolite _ _
            (write_loop-IsPolite send _ false c p (omega arith))
            (λ r q. report_write-IsPolite new client r.0 r.1 q)

  happen-IsPolite : (h : Happening) (c : Connection) → IsPolite c → Ends IsPolite (happen h c)
  happen-IsPolite (pulse now limit) c p = on_pulse-IsPolite new client now limit c p
  happen-IsPolite (arrives blocks end) c p = on_read-IsPolite blocks end c p
  happen-IsPolite (has_room send) c p = on_write-IsPolite send c p
  happen-IsPolite (user acts) c p = acts-IsPolite new client acts c p

  run-kept : (hs : List Happening) (c : Connection) → IsPolite c → Ends IsPolite (run hs c)
  run-kept [] c p = p
  run-kept (h ∷ hs) c p =
      Ends-bind IsPolite IsPolite _ _ (happen-IsPolite h c p) (λ d q. run-kept hs d q)

  -- A new connection that has started to connect, after any pulses, arrivals of bytes, chances to
  -- send and calls of the user, whatever memory there is, the system returns and the dispatcher
  -- answers: no handler comes to a fault or runs without end, both queues are valid, and every
  -- report but rop_connect and rop_close comes behind a rop_connect with the connection's id.
  pub run-IsPolite :
      (object : Object) (peer target : Sock) (made now : Ftspec) (hs : List Happening)
      → Ends IsPolite (run hs (connect success now target (new_connection object peer made)).1)
  unfolding connect new_connection
  run-IsPolite object peer target made now hs = run-kept hs _ (record {
    rd_valid = empty_chain-IsChain;
    wr_valid = empty_chain-IsChain;
    order = inl (refl, tt);
  })
