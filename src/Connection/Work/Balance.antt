-- ===== src/Connection/Work/Balance.antt =====
-- A round of a worker gives back the references that it takes.
use librascal.Prelude.{
  ℕ, suc, ◌^◌, ◌<◌, ◌≡◌, ◌≢◌, refl, sym, ap, subst, ◌∙◌, Bool, true, false, ◌&&◌, ◌||◌, not, Option,
  none, some, List, length, ◌==◌, if◌then◌else◌, if_true, if_false, arith, Bool-cases, inl, inr,
}
use librascal.Chain.{Allocator}
use librascal.Chain.Valid.{contents}
use librascal.Object.{incref, less_one}
use librascal.Util.Ftspec.{Ftspec}
use librascal.Connection.{
  Connection, Call, Answer, stream_buffer, ◌>>=◌, on_error, on_pulse, need_to_write,
}
use librascal.Connection.Stream.{End, Sent, on_read, on_write}
use librascal.Connection.Valid.{Ends, Ends-bind, Ends-result}
use librascal.Connection.Protocol.{IsPolite}
use librascal.Connection.Protocol.Handlers.{on_error-IsPolite, on_pulse-IsPolite}
use librascal.Connection.Protocol.Run.{on_read-IsPolite, on_write-IsPolite}
use librascal.Connection.Work.{
  Ready, Handlers, let_go, unless_cancelled, serve, pick, Worked, passed, left, served, work_one,
}
use librascal.Connection.Work.Frame.{Within, IsHeld, on_error-Held, on_pulse-Held}
use librascal.Connection.Work.Events.{on_read-Held, on_write-Held}

-- A selected connection is passed by.
selected_passed :
    (pulse : Connection → Option Connection) (h : Handlers) (status : Option ℕ) (ready : Ready)
    (c : Connection)
    → c.selected ≡ true
    → work_one pulse h status ready c ≡ some (passed c)
unfolding work_one pick
selected_passed pulse h status ready c e =
    ap
      (λ (o : Option (Bool × Connection)). o >>= (λ (r : Bool × Connection).
        if not r.0 then some (passed r.1) else elim status [
          | none ↦ some (left r.1)
          | some rc ↦
              serve h rc ready r.1 >>= (λ (q : Bool × Connection). some (served (q.0) (q.1)))
        ]))
      (if_true (c.object.cancelled || c.selected) (some (false, c))
        (pulse c >>= (λ (c' : Connection).
          some (true, record c' { object = incref c'.object; selected = true })))
        (always c.object.cancelled ∙ e))
  where
    always : (b : Bool) → (b || c.selected) ≡ c.selected
    always true = sym e
    always false = refl

Ends-both {ℓ} :
    {A : Type ℓ} (P Q : A → Type 0) (m : Option A)
    → Ends P m
    → Within Q m
    → Ends (λ (a : A). P a × Q a) m
Ends-both P Q none p q = p
Ends-both P Q (some a) p q = (p, q)

Ends-if {ℓ} :
    {A : Type ℓ} (P : A → Type 0) (test : Bool) (m n : Option A)
    → Ends P m
    → Ends P n
    → Ends P (if test then m else n)
Ends-if P true m n p q = p
Ends-if P false m n p q = q

-- A connection in its order of reports, with the number of references and `selected`.
unfoldable IsGood : ℕ → Bool → Connection → Type 0
IsGood n s c = IsPolite c × IsHeld n s c

-- A served connection is back at the number of references and no longer selected, and it is deleted
-- if it is cancelled and that number is 0.
abbrev pub IsReleased : ℕ → Bool × Connection → Type 0
IsReleased n r = IsPolite r.1 × IsHeld n false r.1 × (r.0 ≡ (n == 0) && (r.1).object.cancelled)

let_go-IsReleased :
    (n : ℕ) (c : Connection) → suc n < 2 ^ 32 → IsGood (suc n) true c → IsReleased n (let_go c)
unfolding IsGood
let_go-IsReleased n c h (p, (e, s)) =
    let z : (less_one c.object).refc ≡ n = omega arith in
    (
      record { rd_valid = p.rd_valid; wr_valid = p.wr_valid; order = p.order },
      (z, refl),
      ap (λ m. (m == 0) && c.object.cancelled) z,
    )

-- The handlers of a stream connection, given what arrives and what `send` returns.
abbrev pub stream_handlers :
    (Connection → Allocator) → (List Call → Answer) → List (List ℕ) → End → (ℕ → Sent) → Handlers
stream_handlers new client blocks end send = record {
  on_failure = on_error stream_buffer new client;
  on_readable = on_read stream_buffer new client blocks end;
  on_writable = λ c. on_write stream_buffer new client send (suc (length (contents c.wr))) c;
}

module _ (new : Connection → Allocator) (client : List Call → Answer) (blocks : List (List ℕ))
    (end : End) (send : ℕ → Sent) where
  error-IsGood :
      (n : ℕ) (s : Bool) (errno : ℕ) (c : Connection)
      → IsGood n s c
      → Ends (IsGood n s) (on_error stream_buffer new client errno c)
  unfolding IsGood
  error-IsGood n s errno c (p, h) =
      Ends-both IsPolite (IsHeld n s) _ (on_error-IsPolite new client errno c p)
        (on_error-Held stream_buffer new client n s errno c h)

  read-IsGood :
      (n : ℕ) (s : Bool) (c : Connection)
      → IsGood n s c
      → Ends (IsGood n s) (on_read stream_buffer new client blocks end c)
  unfolding IsGood
  read-IsGood n s c (p, h) =
      Ends-both IsPolite (IsHeld n s) _ (on_read-IsPolite new client blocks end c p)
        (on_read-Held stream_buffer new client n s blocks end c h)

  write-IsGood :
      (n : ℕ) (s : Bool) (c : Connection)
      → IsGood n s c
      → Ends (IsGood n s) (on_write stream_buffer new client send (suc (length (contents c.wr))) c)
  unfolding IsGood
  write-IsGood n s c (p, h) =
      Ends-both IsPolite (IsHeld n s) _ (on_write-IsPolite new client send c p)
        (on_write-Held stream_buffer new client n s send _ c h)

  pulse-IsGood :
      (n : ℕ) (s : Bool) (now : Ftspec) (limit : ℕ) (c : Connection)
      → IsGood n s c
      → Ends (IsGood n s) (on_pulse stream_buffer new client now limit c)
  unfolding IsGood
  pulse-IsGood n s now limit c (p, h) =
      Ends-both IsPolite (IsHeld n s) _ (on_pulse-IsPolite new client now limit c p)
        (on_pulse-Held stream_buffer new client n s now limit c h)

  serve-IsReleased :
      (rc : ℕ) (ready : Ready) (n : ℕ) (c : Connection)
      → suc n < 2 ^ 32
      → IsGood (suc n) true c
      → Ends (IsReleased n) (serve (stream_handlers new client blocks end send) rc ready c)
  unfolding serve
  serve-IsReleased rc ready n c h g =
      Ends-bind (IsGood (suc n) true) (IsReleased n) _ _
        (Ends-if (IsGood (suc n) true) (rc == 0) _ _ g (handled ready.failed))
        (λ d k. let_go-IsReleased n d h k)
    where
      handled :
          (failed : Option ℕ)
          → Ends (IsGood (suc n) true) (elim failed [
            | some psec ↦ on_error stream_buffer new client psec c
            | none ↦
                unless_cancelled ready.readable (on_read stream_buffer new client blocks end) c
                >>= (λ (c' : Connection).
                    unless_cancelled
                      (need_to_write c && ready.writable)
                      (λ (d : Connection).
                        on_write stream_buffer new client send (suc (length (contents d.wr))) d)
                      c')
          ])
      handled (some psec) = error-IsGood (suc n) true psec c g
      handled none =
          Ends-bind (IsGood (suc n) true) (IsGood (suc n) true)
            (unless_cancelled ready.readable (on_read stream_buffer new client blocks end) c) _
            (Ends-if (IsGood (suc n) true) (not c.object.cancelled && ready.readable) _ _
              (read-IsGood (suc n) true c g) g)
            (λ d k.
              Ends-if (IsGood (suc n) true)
                (not d.object.cancelled && (need_to_write c && ready.writable)) _ _
                (write-IsGood (suc n) true d k) k)

  -- What a round leaves of a connection, where `select` returned `status`.
  unfoldable pub IsOutcome : Option ℕ → Connection → Worked → Type 0
  IsOutcome status c (passed d) = (d ≡ c) × ((c.object.cancelled || c.selected) ≡ true)
  IsOutcome status c (left d) = (status ≡ none) × IsHeld (suc c.object.refc) true d
  IsOutcome status c (served deleted d) = (status ≢ none) × IsReleased c.object.refc (deleted, d)

  -- The result of `filter`.
  unfoldable IsPicked : Connection → Bool × Connection → Type 0
  IsPicked c r =
      if r.0
      then IsGood (suc c.object.refc) true r.1
      else ((r.1 ≡ c) × ((c.object.cancelled || c.selected) ≡ true))

  pick-IsPicked :
      (now : Ftspec) (limit : ℕ) (c : Connection)
      → suc c.object.refc < 2 ^ 32
      → IsPolite c
      → Ends (IsPicked c) (pick (on_pulse stream_buffer new client now limit) c)
  unfolding pick IsPicked IsGood
  pick-IsPicked now limit c h p = elim (Bool-cases (c.object.cancelled || c.selected)) [
    | inl e ↦
        subst (Ends (IsPicked c)) (sym (if_true (c.object.cancelled || c.selected) _ _ e)) (refl, e)
    | inr e ↦ subst (Ends (IsPicked c)) (sym (if_false (c.object.cancelled || c.selected) _ _ e)) (
        Ends-bind (IsGood c.object.refc c.selected) (IsPicked c) _ _
          (pulse-IsGood c.object.refc c.selected now limit c (p, (refl, refl))) (λ d g. taken d g))
  ]
    where
      taken :
          (d : Connection)
          → IsGood c.object.refc c.selected d
          → IsGood (suc c.object.refc) true (record d { object = incref d.object; selected = true })
      taken d (q, (r, s)) = (
        record { rd_valid = q.rd_valid; wr_valid = q.wr_valid; order = q.order },
        (omega arith, refl),
      )

  -- A round of a worker at a stream connection whose reports are in order and whose references fit
  -- into 32 bits comes to an end. It passes the connection by, unchanged, only if it is cancelled or
  -- selected by another worker; if `select` fails it leaves the connection selected with one
  -- reference more; otherwise the connection is no longer selected, has as many references as
  -- before and its reports in order, and is deleted exactly if it is cancelled and nobody holds one.
  pub work_one-IsOutcome :
      (now : Ftspec) (limit : ℕ) (status : Option ℕ) (ready : Ready) (c : Connection)
      → suc c.object.refc < 2 ^ 32
      → IsPolite c
      → Ends (IsOutcome status c) (
          work_one
            (on_pulse stream_buffer new client now limit)
            (stream_handlers new client blocks end send)
            status
            ready
            c)
  unfolding work_one IsPicked IsGood IsOutcome
  work_one-IsOutcome now limit status ready c h p =
      Ends-bind (IsPicked c) (IsOutcome status c) _ _ (pick-IsPicked now limit c h p)
        (λ r k. go r.0 r.1 status k)
    where
      go :
          (picked : Bool) (d : Connection) (status : Option ℕ)
          → IsPicked c (picked, d)
          → Ends (IsOutcome status c) (
              if not picked then some (passed d) else elim status [
                | none ↦ some (left d)
                | some rc ↦
                    serve (stream_handlers new client blocks end send) rc ready d
                    >>= (λ (r : Bool × Connection). some (served (r.0) (r.1)))
              ])
      go false d status k = k
      go true d none (q, k) = (refl, k)
      go true d (some rc) k =
          Ends-bind (IsReleased c.object.refc) (IsOutcome (some rc) c)
            (serve (stream_handlers new client blocks end send) rc ready d) _
            (serve-IsReleased rc ready c.object.refc d h k) (λ r l. (λ e. cc, l))

  -- If `select` fails, a connection that was neither cancelled nor selected is left so that every
  -- later round, of any worker, passes it by: it is never served again, and keeps the reference.
  pub failed_select_strands :
      (now : Ftspec) (limit : ℕ) (ready : Ready) (c : Connection)
      (pulse : Connection → Option Connection) (h : Handlers) (later : Option ℕ) (again : Ready)
      → suc c.object.refc < 2 ^ 32
      → IsPolite c
      → (c.object.cancelled || c.selected) ≡ false
      → (d : Connection) × (work_one
            (on_pulse stream_buffer new client now limit)
            (stream_handlers new client blocks end send)
            none
            ready
            c
          ≡ some (left d))
        × (d.object.refc ≡ suc c.object.refc)
        × (work_one pulse h later again d ≡ some (passed d))
  unfolding IsOutcome
  failed_select_strands now limit ready c pulse h later again l p e =
      let (w, q, o) =
        Ends-result (IsOutcome none c) _ (work_one-IsOutcome now limit none ready c l p) in
      go w q o
    where
      go :
          (w : Worked)
          → work_one
              (on_pulse stream_buffer new client now limit)
              (stream_handlers new client blocks end send)
              none
              ready
              c
            ≡ some w
          → IsOutcome none c w
          → (d : Connection) × (work_one
                (on_pulse stream_buffer new client now limit)
                (stream_handlers new client blocks end send)
                none
                ready
                c
              ≡ some (left d))
            × (d.object.refc ≡ suc c.object.refc)
            × (work_one pulse h later again d ≡ some (passed d))
      go (passed d) q (k, t) = absurd cc
      go (left d) q (k, (r, s)) = (d, q, r, selected_passed pulse h later again d s)
      go (served deleted d) q (k, l) = absurd (k refl)
