-- ===== src/Connection/Protocol.antt =====
-- The order in which the handlers of a stream connection report.
pub mod Handlers
pub mod Run
use librascal.Prelude.{
  ℕ, suc, ◌+◌, ◌*◌, ◌<◌, ◌≡◌, refl, sym, ap, subst, ◌∙◌, Bool, true, false, Option, none, some,
  List, [], ◌∷◌, ◌++◌, append_assoc, All, All-append, length, leb, Bool-cases, if◌then◌else◌, inl,
  inr, ◌⊎◌, arith,
}
use librascal.Chain.{DataChain, Allocator, append, remove, peek}
use librascal.Chain.Valid.{IsChain, contents}
use librascal.Chain.Read.{remove-drop}
use librascal.Object.{Object}
use librascal.Util.Ftspec.{Ftspec, sub, mseconds}
use librascal.Connection.{
  Mode, cm_normal, cm_connect, cm_accept, Op, rop_accept, rop_close, rop_connect, rop_read,
  rop_write, rop_listen, Call, Connection, Act, Answer, stream_buffer, ◌>>=◌, cancel, perform, disp,
  on_error, on_pulse, system_error, rec_conn_timeout,
}
use librascal.Connection.Valid.{Ends, Ends-bind, Ends-map, Kept, called, disp-Kept, perform-Kept}
use librascal.Connection.Buffers.{stream-IsBuffer}
use librascal.Connection.Stream.{
  End, closed, dry, broken, Sent, took, would_block, refused, chunk, receive, read_loop, introduce,
  report, report_read, on_read, write_loop, report_write, on_write,
}

-- Reports that may come before the connection is established.
abbrev pub IsQuiet : Op → Type 0
IsQuiet rop_connect = Unit
IsQuiet rop_close = Unit
IsQuiet _ = ⊥

-- The connection has been reported as established, and only quiet reports came before.
pub record Known (id : ℕ) (calls : List Call) : Type 0 where
  pub before : List Call
  pub behind : List Call
  pub split : calls ≡ before ++ record { code = id; op = rop_connect } ∷ behind
  pub quiet : All (λ (x : Call). IsQuiet x.op) before

abbrev pub Order : Mode → ℕ → List Call → Type 0
Order mode id calls =
    ((mode ≡ cm_connect) × All (λ (x : Call). IsQuiet x.op) calls) ⊎ Known id calls

pub record IsPolite (c : Connection) : Type 0 where
  pub rd_valid : IsChain c.rd
  pub wr_valid : IsChain c.wr
  pub order : Order c.mode c.object.id c.calls

Known-append : (id : ℕ) (calls : List Call) (x : Call) → Known id calls → Known id (calls ++ x ∷ [])
Known-append id calls x k = record {
  before = k.before;
  behind = k.behind ++ x ∷ [];
  split = ap (λ l. l ++ x ∷ []) k.split ∙ append_assoc k.before _ (x ∷ []);
  quiet = k.quiet;
}

Known-connect :
    (mode : Mode) (id : ℕ) (calls : List Call)
    → Order mode id calls
    → Known id (calls ++ record { code = id; op = rop_connect } ∷ [])
Known-connect mode id calls (inl (m, q)) = record {
  before = calls;
  behind = [];
  split = refl;
  quiet = q;
}
Known-connect mode id calls (inr k) = Known-append id calls _ k

Order-append :
    (mode : Mode) (id : ℕ) (calls : List Call) (code : ℕ) (op : Op)
    → IsQuiet op
    → Order mode id calls
    → Order mode id (calls ++ record { code = code; op = op } ∷ [])
Order-append mode id calls code op u (inl (m, q)) =
    inl (m, All-append (λ (x : Call). IsQuiet x.op) calls _ q (u, tt))
Order-append mode id calls code op u (inr k) = inr (Known-append id calls _ k)

abbrev pub IsEstablished : Connection → Type 0
IsEstablished c = IsPolite c × Known c.object.id c.calls

module _ (new : Connection → Allocator) (client : List Call → Answer) where
  -- After a call whose place in the order is right.
  pub settled :
      (d e : Connection) → Order d.mode d.object.id d.calls → Kept IsChain d e → IsPolite e
  settled d e o k = record {
    rd_valid = k.rd_valid;
    wr_valid = k.wr_valid;
    order =
        subst (λ m. Order m e.object.id e.calls) (sym k.mode_kept)
          (subst (λ i. Order d.mode i e.calls) (sym k.id_kept)
            (subst (λ l. Order d.mode d.object.id l) (sym k.calls_kept) o));
  }

  pub cancel-IsPolite : (c : Connection) → IsPolite c → IsPolite (cancel c)
  cancel-IsPolite c p = record { rd_valid = p.rd_valid; wr_valid = p.wr_valid; order = p.order }

  -- A quiet report.
  pub quiet-IsPolite :
      (code : ℕ) (op : Op) (c : Connection)
      → IsQuiet op
      → IsPolite c
      → Ends (λ (r : Bool × Connection). IsPolite r.1) (disp stream_buffer new client code op c)
  quiet-IsPolite code op c u p =
      Ends-map (λ (r : Bool × Connection). Kept IsChain (called code op c) r.1)
        (λ (r : Bool × Connection). IsPolite r.1) _
        (disp-Kept stream_buffer IsChain stream-IsBuffer new client code op c p.rd_valid p.wr_valid)
        (λ r k. settled _ r.1 (Order-append c.mode c.object.id c.calls code op u p.order) k)

  Kept-IsEstablished :
      (d e : Connection) → Known d.object.id d.calls → Kept IsChain d e → IsEstablished e
  Kept-IsEstablished d e k l = (
    settled d e (inr k) l,
    subst (λ i. Known i e.calls) (sym l.id_kept)
        (subst (λ s. Known d.object.id s) (sym l.calls_kept) k),
  )

  pub loud-IsEstablished :
      (code : ℕ) (op : Op) (c : Connection)
      → IsEstablished c
      → Ends
          (λ (r : Bool × Connection). IsEstablished r.1)
          (disp stream_buffer new client code op c)
  loud-IsEstablished code op c (p, k) =
      Ends-map (λ (r : Bool × Connection). Kept IsChain (called code op c) r.1)
        (λ (r : Bool × Connection). IsEstablished r.1) _
        (disp-Kept stream_buffer IsChain stream-IsBuffer new client code op c p.rd_valid p.wr_valid)
        (λ r l. Kept-IsEstablished _ r.1 (Known-append c.object.id c.calls _ k) l)

  pub connect-IsEstablished :
      (c : Connection)
      → IsPolite c
      → Ends
          (λ (r : Bool × Connection). IsEstablished r.1)
          (disp stream_buffer new client c.object.id rop_connect c)
  connect-IsEstablished c p =
      Ends-map (λ (r : Bool × Connection). Kept IsChain (called c.object.id rop_connect c) r.1)
        (λ (r : Bool × Connection). IsEstablished r.1) _
        (disp-Kept stream_buffer IsChain stream-IsBuffer new client c.object.id rop_connect c
          p.rd_valid p.wr_valid)
        (λ r l. Kept-IsEstablished _ r.1 (Known-connect c.mode c.object.id c.calls p.order) l)
