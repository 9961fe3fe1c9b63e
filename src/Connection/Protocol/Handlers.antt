-- ===== src/Connection/Protocol/Handlers.antt =====
-- Each handler keeps the order of the reports, and comes to no fault.
use librascal.Prelude.{
  ℕ, ◌*◌, ◌≡◌, refl, sym, ◌∙◌, Bool, true, false, some, List, ◌≢◌, leb, if◌then◌else◌, inl, inr,
}
use librascal.Chain.{Allocator}
use librascal.Chain.Valid.{IsChain}
use librascal.Util.Ftspec.{Ftspec, sub, mseconds}
use librascal.Connection.{
  Mode, cm_normal, cm_connect, cm_accept, Op, rop_close, rop_connect, rop_read, rop_write, Call,
  Connection, Act, Answer, stream_buffer, ◌>>=◌, cancel, perform, disp, on_error, on_pulse,
  system_error, rec_conn_timeout,
}
use librascal.Connection.Valid.{Ends, Ends-bind, Ends-map, Kept, perform-Kept}
use librascal.Connection.Buffers.{stream-IsBuffer}
use librascal.Connection.Stream.{introduce, report, report_read, report_write}
use librascal.Connection.Protocol.{
  IsQuiet, IsPolite, IsEstablished, settled, cancel-IsPolite, quiet-IsPolite, loud-IsEstablished,
  connect-IsEstablished,
}

module _ (new : Connection → Allocator) (client : List Call → Answer) where
  pub acts-IsPolite :
      (acts : List Act) (c : Connection)
      → IsPolite c
      → Ends IsPolite (perform stream_buffer new client acts c)
  acts-IsPolite acts c p =
      Ends-map (Kept IsChain c) IsPolite _
        (perform-Kept stream_buffer IsChain stream-IsBuffer new client acts c p.rd_valid p.wr_valid)
        (λ d k. settled new client c d p.order k)

  pub on_error-IsPolite :
      (errno : ℕ) (c : Connection)
      → IsPolite c
      → Ends IsPolite (on_error stream_buffer new client errno c)
  unfolding on_error
  on_error-IsPolite errno c p =
      Ends-bind (λ (r : Bool × Connection). IsPolite r.1) IsPolite _ _
        (quiet-IsPolite new client (system_error errno) _ c (quiet c.mode) p)
        (λ r q. cancel-IsPolite new client r.1 q)
    where
      quiet : (m : Mode) → IsQuiet (elim m [ cm_connect ↦ rop_connect | _ ↦ rop_close ])
      quiet cm_normal = tt
      quiet cm_connect = tt
      quiet cm_accept = tt

  pub on_pulse-IsPolite :
      (now : Ftspec) (limit : ℕ) (c : Connection)
      → IsPolite c
      → Ends IsPolite (on_pulse stream_buffer new client now limit c)
  unfolding on_pulse
  on_pulse-IsPolite now limit c p = go c.mode (leb (limit * 1000) (mseconds (sub now c.ts)))
    where
      expired : Ends IsPolite (
          disp stream_buffer new client rec_conn_timeout rop_close c
          >>= (λ (r : Bool × Connection). some (cancel (r.1))))
      expired =
          Ends-bind (λ (r : Bool × Connection). IsPolite r.1) IsPolite _ _
            (quiet-IsPolite new client rec_conn_timeout rop_close c tt p)
            (λ r q. cancel-IsPolite new client r.1 q)

      go :
          (m : Mode) (late : Bool)
          → Ends IsPolite (elim m [
            | cm_connect ↦
                if late
                then (disp stream_buffer new client rec_conn_timeout rop_close c
                    >>= (λ (r : Bool × Connection). some (cancel (r.1))))
                else some c
            | _ ↦ some c
          ])
      go cm_normal late = p
      go cm_accept late = p
      go cm_connect true = expired
      go cm_connect false = p

  -- After `introduce` the handler goes on only at an established connection.
  abbrev pub Introduced : Bool × Connection → Type 0
  Introduced (true, c) = IsEstablished c
  Introduced (false, c) = IsPolite c

  normal-IsEstablished :
      (c : Connection) → IsEstablished c → IsEstablished (record c { mode = cm_normal })
  normal-IsEstablished c (p, k) =
      (record { rd_valid = p.rd_valid; wr_valid = p.wr_valid; order = inr k }, k)

  past-IsEstablished :
      (c : Connection) (m : Mode) → m ≢ cm_connect → c.mode ≡ m → IsPolite c → IsEstablished c
  past-IsEstablished c m n e p =
      (p, elim p.order [ inl (q, u) ↦ absurd (n (sym e ∙ q)) | inr k ↦ k ])

  introduce-Introduced :
      (c : Connection) → IsPolite c → Ends Introduced (introduce stream_buffer new client c)
  unfolding introduce
  introduce-Introduced c p = go c.mode refl
    where
      answered :
          (accepted : Bool) (d : Connection)
          → IsEstablished d
          → Introduced
              (if accepted then (true, record d { mode = cm_normal }) else (false, cancel d))
      answered true d e = normal-IsEstablished d e
      answered false d e = cancel-IsPolite new client d e.0

      go :
          (m : Mode)
          → c.mode ≡ m
          → Ends Introduced (elim m [
            | cm_connect ↦
                disp stream_buffer new client c.object.id rop_connect c
                >>= (λ (r : Bool × Connection). some (
                    if r.0
                    then (true, record (r.1) { mode = cm_normal })
                    else (false, cancel (r.1))))
            | _ ↦ some (true, c)
          ])
      go cm_normal e = past-IsEstablished c cm_normal (λ q. cc) e p
      go cm_accept e = past-IsEstablished c cm_accept (λ q. cc) e p
      go cm_connect e =
          Ends-bind (λ (r : Bool × Connection). IsEstablished r.1) Introduced _ _
            (connect-IsEstablished new client c p) (λ r q. answered r.0 r.1 q)

  report_quiet :
      (told : Bool) (code : ℕ) (op : Op) (c : Connection)
      → IsQuiet op
      → IsPolite c
      → Ends IsPolite (report stream_buffer new client told code op c)
  unfolding report
  report_quiet false code op c u p = p
  report_quiet true code op c u p =
      Ends-bind (λ (r : Bool × Connection). IsPolite r.1) IsPolite _ _
        (quiet-IsPolite new client code op c u p) (λ r q. q)

  report_loud :
      (told : Bool) (code : ℕ) (op : Op) (c : Connection)
      → IsEstablished c
      → Ends IsPolite (report stream_buffer new client told code op c)
  unfolding report
  report_loud false code op c (p, k) = p
  report_loud true code op c e =
      Ends-bind (λ (r : Bool × Connection). IsEstablished r.1) IsPolite _ _
        (loud-IsEstablished new client code op c e) (λ r q. q.0)

  Introduced-IsPolite : (r : Bool × Connection) → Introduced r → IsPolite r.1
  Introduced-IsPolite (true, c) (p, k) = p
  Introduced-IsPolite (false, c) p = p

  -- A report that is made only if the handler goes on.
  report-Introduced :
      (success : Bool) (code : ℕ) (op : Op) (r : Bool × Connection)
      → Introduced r
      → Ends IsPolite (report stream_buffer new client (if r.0 then success else false) code op r.1)
  report-Introduced success code op (true, c) e = report_loud success code op c e
  report-Introduced success code op (false, c) p = unfold report in p

  pub report_write-IsPolite :
      (success : Bool) (c : Connection)
      → IsPolite c
      → Ends IsPolite (report_write stream_buffer new client success c)
  unfolding report_write
  report_write-IsPolite success c p =
      Ends-bind Introduced IsPolite _ _ (introduce-Introduced c p)
        (λ r q. report-Introduced success (r.1).object.id rop_write r q)

  pub report_read-IsPolite :
      (success shut : Bool) (c : Connection)
      → IsPolite c
      → Ends IsPolite (report_read stream_buffer new client success shut c)
  unfolding report_read report
  report_read-IsPolite false shut c p =
      Ends-bind IsPolite IsPolite _ _ (report_quiet shut 0 rop_close c tt p)
        (λ d q. closing shut d q)
    where
      closing :
          (shut : Bool) (d : Connection) → IsPolite d → IsPolite (if shut then cancel d else d)
      closing true d q = cancel-IsPolite new client d q
      closing false d q = q
  report_read-IsPolite true shut c p =
      Ends-bind Introduced IsPolite _ _ (introduce-Introduced c p) (λ r q.
        Ends-bind IsPolite IsPolite _ _ (report-Introduced true (r.1).object.id rop_read r q)
          (λ d₂ q₂.
            Ends-bind IsPolite IsPolite _ _
              (report_quiet (if r.0 then shut else false) 0 rop_close d₂ tt q₂)
              (λ d₃ q₃. final r.0 shut d₃ r.1 q₃ (Introduced-IsPolite r q))))
    where
      final :
          (goes_on shut : Bool) (d c : Connection)
          → IsPolite d
          → IsPolite c
          → IsPolite (if goes_on then (if shut then cancel d else d) else c)
      final true true d c q p = cancel-IsPolite new client d q
      final true false d c q p = q
      final false shut d c q p = p
