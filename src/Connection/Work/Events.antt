-- ===== src/Connection/Work/Events.antt =====
-- The handlers of a stream socket leave alone the members that belong to the worker.
use librascal.Prelude.{
  ℕ, zero, suc, Bool, true, false, Option, none, some, List, [], ◌∷◌, ◌++◌, length, take,
  if◌then◌else◌,
}
use librascal.Chain.{DataChain, Allocator, remove}
use librascal.Connection.{
  Mode, cm_normal, cm_connect, cm_accept, Op, rop_close, rop_connect, rop_read, rop_write, Call,
  Connection, Answer, Buffer, ◌>>=◌, cancel, disp, on_error,
}
use librascal.Connection.Stream.{
  End, closed, dry, broken, Sent, took, would_block, refused, chunk, receive, read_loop, introduce,
  report, report_read, on_read, write_loop, report_write, on_write,
}
use librascal.Connection.Work.Frame.{
  Within, Within-bind, Within-if, IsHeld, disp-Held, on_error-Held,
}

module _ (b : Buffer) (new : Connection → Allocator) (client : List Call → Answer) (n : ℕ)
    (s : Bool) where
  receive-Held :
      (block : List ℕ) (c : Connection)
      → IsHeld n s c
      → Within (IsHeld n s) (receive b new client block c)
  unfolding receive
  receive-Held block c h = go (b.append (new c) c.rd block)
    where
      go :
          (m : Option (Bool × DataChain))
          → Within (IsHeld n s) (m >>= (λ (r : Bool × DataChain). some (record c { rd = r.1 })))
      go none = tt
      go (some r) = h

  read_loop-Held :
      (blocks : List (List ℕ)) (end : End) (t : Bool) (c : Connection)
      → IsHeld n s c
      → Within
          (λ (r : Bool × Bool × Connection). IsHeld n s r.2)
          (read_loop b new client blocks end t c)
  unfolding read_loop
  read_loop-Held [] closed t c h = h
  read_loop-Held [] dry t c h = h
  read_loop-Held [] (broken errno) t c h =
      Within-bind (IsHeld n s) (λ (r : Bool × Bool × Connection). IsHeld n s r.2) _ _
        (on_error-Held b new client n s errno c h) (λ d k. k)
  read_loop-Held ([] ∷ blocks) end t c h = h
  read_loop-Held ((x ∷ xs) ∷ blocks) end t c h =
      Within-bind (IsHeld n s) (λ (r : Bool × Bool × Connection). IsHeld n s r.2) _ _
        (receive-Held (x ∷ xs) c h) (λ d k. read_loop-Held blocks end true d k)

  introduce-Held :
      (c : Connection)
      → IsHeld n s c
      → Within (λ (r : Bool × Connection). IsHeld n s r.1) (introduce b new client c)
  unfolding introduce
  introduce-Held c h = go c.mode
    where
      answered :
          (accepted : Bool) (d : Connection)
          → IsHeld n s d
          → (λ (r : Bool × Connection). IsHeld n s r.1)
              (if accepted then (true, record d { mode = cm_normal }) else (false, cancel d))
      answered true d k = k
      answered false d k = k

      go :
          (m : Mode)
          → Within
              (λ (r : Bool × Connection). IsHeld n s r.1)
              (elim m [
                | cm_connect ↦
                    disp b new client c.object.id rop_connect c >>= (λ (r : Bool × Connection).
                      some (
                        if r.0
                        then (true, record (r.1) { mode = cm_normal })
                        else (false, cancel (r.1))))
                | _ ↦ some (true, c)
              ])
      go cm_normal = h
      go cm_accept = h
      go cm_connect =
          Within-bind (λ (r : Bool × Connection). IsHeld n s r.1)
            (λ (r : Bool × Connection). IsHeld n s r.1)
            (disp b new client c.object.id rop_connect c)
            (λ (r : Bool × Connection).
              some
                (if r.0 then (true, record (r.1) { mode = cm_normal }) else (false, cancel (r.1))))
            (disp-Held b new client n s c.object.id rop_connect c h) (λ r k. answered r.0 r.1 k)

  report-Held :
      (told : Bool) (code : ℕ) (op : Op) (c : Connection)
      → IsHeld n s c
      → Within (IsHeld n s) (report b new client told code op c)
  unfolding report
  report-Held told code op c h =
      Within-if (IsHeld n s) told _ _
        (Within-bind (λ (r : Bool × Connection). IsHeld n s r.1) (IsHeld n s) _ _
          (disp-Held b new client n s code op c h) (λ r k. k))
        h

  report_read-Held :
      (success shut : Bool) (c : Connection)
      → IsHeld n s c
      → Within (IsHeld n s) (report_read b new client success shut c)
  unfolding report_read
  report_read-Held success shut c h =
      Within-bind (λ (r : Bool × Connection). IsHeld n s r.1) (IsHeld n s) _ _
        (Within-if (λ (r : Bool × Connection). IsHeld n s r.1) success _ _ (introduce-Held c h) h)
        (λ r k.
          Within-bind (IsHeld n s) (IsHeld n s) _ _
            (report-Held (if r.0 then success else false) (r.1).object.id rop_read (r.1) k)
            (λ c₂ k₂.
              Within-bind (IsHeld n s) (IsHeld n s) _ _
                (report-Held (if r.0 then shut else false) 0 rop_close c₂ k₂)
                (λ c₃ k₃. final r.0 shut c₃ r.1 k₃ k)))
    where
      final :
          (goes_on shut : Bool) (d c : Connection)
          → IsHeld n s d
          → IsHeld n s c
          → IsHeld n s (if goes_on then (if shut then cancel d else d) else c)
      final true true d c k h = k
      final true false d c k h = k
      final false shut d c k h = h

  pub on_read-Held :
      (blocks : List (List ℕ)) (end : End) (c : Connection)
      → IsHeld n s c
      → Within (IsHeld n s) (on_read b new client blocks end c)
  unfolding on_read
  on_read-Held blocks end c h = Within-if (IsHeld n s) c.object.cancelled _ _ h (
      Within-bind (λ (r : Bool × Bool × Connection). IsHeld n s r.2) (IsHeld n s) _ _
        (read_loop-Held blocks end false c h) (λ r k. report_read-Held r.0 r.1 r.2 k))

  write_loop-Held :
      (send : ℕ → Sent) (fuel : ℕ) (t : Bool) (c : Connection)
      → IsHeld n s c
      → Within (λ (r : Bool × Connection). IsHeld n s r.1) (write_loop b new client send fuel t c)
  unfolding write_loop
  write_loop-Held send zero t c h = tt
  write_loop-Held send (suc fuel) t c h =
      go (b.peek c.wr chunk) (send fuel) (λ d k. write_loop-Held send fuel true d k)
    where
      go :
          (out : List ℕ) (sent : Sent)
          → ((d : Connection)
              → IsHeld n s d
              → Within
                  (λ (r : Bool × Connection). IsHeld n s r.1)
                  (write_loop b new client send fuel true d))
          → Within
              (λ (r : Bool × Connection). IsHeld n s r.1)
              (elim out [
                | [] ↦ some (t, c)
                | x ∷ xs ↦
                    let left : Connection = record c { wr = remove c.wr (length (x ∷ xs)) } in
                    elim sent [
                      | took m ↦
                          write_loop b new client send fuel true
                            (record left { sent = c.sent ++ take m (x ∷ xs) })
                      | would_block ↦ write_loop b new client send fuel true left
                      | refused errno ↦
                          on_error b new client errno c >>= (λ (c' : Connection). some (t, c'))
                    ]
              ])
      go [] sent f = h
      go (x ∷ xs) (took m) f = f _ h
      go (x ∷ xs) would_block f = f _ h
      go (x ∷ xs) (refused errno) f =
          Within-bind (IsHeld n s) (λ (r : Bool × Connection). IsHeld n s r.1)
            (on_error b new client errno c) (λ (c' : Connection). some (t, c'))
            (on_error-Held b new client n s errno c h) (λ d k. k)

  pub on_write-Held :
      (send : ℕ → Sent) (fuel : ℕ) (c : Connection)
      → IsHeld n s c
      → Within (IsHeld n s) (on_write b new client send fuel c)
  unfolding on_write report_write
  on_write-Held send fuel c h = Within-if (IsHeld n s) c.object.cancelled _ _ h (
      Within-bind (λ (r : Bool × Connection). IsHeld n s r.1) (IsHeld n s) _ _
        (write_loop-Held send fuel false c h)
        (λ r k.
          Within-bind (λ (q : Bool × Connection). IsHeld n s q.1) (IsHeld n s) _ _
            (introduce-Held r.1 k)
            (λ q l. report-Held (if q.0 then r.0 else false) (q.1).object.id rop_write (q.1) l)))
