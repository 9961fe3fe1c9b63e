-- ===== src/Connection/Work/Frame.antt =====
-- The members of a connection that belong to the worker, its count of references and `selected`: no
-- call of the dispatcher changes them.
use librascal.Prelude.{
  ℕ, ◌*◌, ◌≡◌, Bool, true, false, Option, none, some, List, [], ◌∷◌, ◌++◌, leb, if◌then◌else◌,
}
use librascal.Chain.{DataChain, Allocator}
use librascal.Util.Ftspec.{Ftspec, sub, mseconds}
use librascal.Connection.{
  Mode, cm_normal, cm_connect, cm_accept, Op, rop_close, rop_connect, Call, Connection, Act, write,
  read, reads, cancels, Answer, Buffer, ◌>>=◌, cancel, write_to, read_from, reads_from, perform,
  disp, on_error, on_pulse, system_error, rec_conn_timeout,
}

-- A call whose result, if it comes to one, is in P.
abbrev pub Within {ℓ} : {A : Type ℓ} → (A → Type 0) → Option A → Type 0
Within P none = Unit
Within P (some a) = P a

pub Within-bind {ℓ κ} :
    {A : Type ℓ} {B : Type κ} (P : A → Type 0) (Q : B → Type 0) (m : Option A) (f : A → Option B)
    → Within P m
    → ((a : A) → P a → Within Q (f a))
    → Within Q (m >>= f)
Within-bind P Q none f e g = tt
Within-bind P Q (some a) f e g = g a e

pub Within-if {ℓ} :
    {A : Type ℓ} (P : A → Type 0) (test : Bool) (m n : Option A)
    → Within P m
    → Within P n
    → Within P (if test then m else n)
Within-if P true m n p q = p
Within-if P false m n p q = q

abbrev pub IsHeld : ℕ → Bool → Connection → Type 0
IsHeld refc selected c = (c.object.refc ≡ refc) × (c.selected ≡ selected)

module _ (b : Buffer) (new : Connection → Allocator) (client : List Call → Answer) (n : ℕ)
    (s : Bool) where
  perform-Held :
      (acts : List Act) (c : Connection)
      → IsHeld n s c
      → Within (IsHeld n s) (perform b new client acts c)
  unfolding perform write_to read_from reads_from
  perform-Held [] c h = h
  perform-Held (write src ∷ acts) c h =
      Within-bind (IsHeld n s) (IsHeld n s) (write_to b new client src c) _
        (Within-bind (λ (r : Bool × DataChain). Unit) (IsHeld n s) (b.append (new c) c.wr src) _
          (any (b.append (new c) c.wr src)) (λ r u. h))
        (λ c' k. perform-Held acts c' k)
    where
      any : (m : Option (Bool × DataChain)) → Within (λ (r : Bool × DataChain). Unit) m
      any none = tt
      any (some r) = tt
  perform-Held (read size ∷ acts) c h = perform-Held acts _ h
  perform-Held (reads size flags ∷ acts) c h = perform-Held acts _ h
  perform-Held (cancels ∷ acts) c h = perform-Held acts _ h

  pub disp-Held :
      (code : ℕ) (op : Op) (c : Connection)
      → IsHeld n s c
      → Within (λ (r : Bool × Connection). IsHeld n s r.1) (disp b new client code op c)
  unfolding disp
  disp-Held code op c h =
      let d : Connection = record c { calls = c.calls ++ record { code = code; op = op } ∷ [] } in
      Within-bind (IsHeld n s) (λ (r : Bool × Connection). IsHeld n s r.1)
        (perform b new client (client d.calls).acts d) _ (perform-Held (client d.calls).acts d h)
        (λ c' k. k)

  pub on_error-Held :
      (errno : ℕ) (c : Connection)
      → IsHeld n s c
      → Within (IsHeld n s) (on_error b new client errno c)
  unfolding on_error
  on_error-Held errno c h =
      Within-bind (λ (r : Bool × Connection). IsHeld n s r.1) (IsHeld n s)
        (disp b new client (system_error errno)
          (elim c.mode [ cm_connect ↦ rop_connect | _ ↦ rop_close ]) c)
        _ (disp-Held (system_error errno) _ c h) (λ r k. k)

  pub on_pulse-Held :
      (now : Ftspec) (limit : ℕ) (c : Connection)
      → IsHeld n s c
      → Within (IsHeld n s) (on_pulse b new client now limit c)
  unfolding on_pulse
  on_pulse-Held now limit c h = go c.mode
    where
      expire : Option Connection
      expire =
          disp b new client rec_conn_timeout rop_close c
          >>= (λ (r : Bool × Connection). some (cancel (r.1)))

      go :
          (m : Mode)
          → Within (IsHeld n s) (elim m [
            | cm_connect ↦
                if leb (limit * 1000) (mseconds (sub now c.ts))
                then (disp b new client rec_conn_timeout rop_close c
                    >>= (λ (r : Bool × Connection). some (cancel (r.1))))
                else some c
            | _ ↦ some c
          ])
      go cm_normal = h
      go cm_accept = h
      go cm_connect =
          Within-if (IsHeld n s) (leb (limit * 1000) (mseconds (sub now c.ts))) expire (some c)
            (Within-bind (λ (r : Bool × Connection). IsHeld n s r.1) (IsHeld n s)
              (disp b new client rec_conn_timeout rop_close c)
              (λ (r : Bool × Connection). some (cancel (r.1)))
              (disp-Held rec_conn_timeout rop_close c h) (λ r k. k))
            h
