-- ===== src/Nt/Worker/Handlers.antt =====
-- The handlers of operations that are over: the bytes and the references of a stream connection.
use librascal.Prelude.{
  ℕ, ◌≡◌, ◌≢◌, refl, sym, subst, inl, inr, Bool, true, false, Option, none, some, List, ◌++◌, arith,
  if◌then◌else◌, if_true, if_false, Bool-cases,
}
use librascal.Chain.{DataChain}
use librascal.Chain.Valid.{IsChain, contents}
use librascal.Connection.{Op, rop_read, rop_write, rop_connect, ◌>>=◌}
use librascal.Connection.Valid.{Ends, Ends-bind, Ends-map}
use librascal.Nt.{
  Operation, lost, Host, System, release, pend, cancel, on_read, on_write, welcome, on_connect,
}
use librascal.Nt.Worker.{bounce}
use librascal.Nt.Worker.Steady.{
  IsSound, Flows, IsSteady, release-IsSound, release-Flows, pend-IsSound,
}
use librascal.Nt.Worker.Calls.{Closes, Reports, IsGone, cancel-IsGone, spawn_reader-IsSteady}
use librascal.Nt.Worker.Writes.{Ready, spawn_writer-IsSteady}
use librascal.Nt.Worker.Appends.{append-Whole}

module _ (sys : System) (memory : (h : Host) (n : ℕ) → sys.new h n ≢ none)
    (notify : ℕ → Op → Host → Option (Bool × Host)) (closes : Closes notify)
    (reports : Reports notify) where
  pub on_read-IsSteady :
      (r : ℕ) (over : Bool) (src : List ℕ) (h : Host)
      → IsSteady r over h
      → Ends (IsSteady r over) (on_read sys notify src h)
  unfolding on_read
  on_read-IsSteady r over src h (s, f) =
      Ends-bind
        (λ (p : Bool × DataChain).
          (p.0 ≡ true) × (contents p.1 ≡ contents h.rdb ++ src) × IsChain p.1)
        (IsSteady r over) _ _
        (append-Whole sys memory notify closes h h.rdb src s.stream s.rd_valid)
        (λ p w.
          Ends-bind (λ (x : Bool × Host). IsSteady r over x.1) (IsSteady r over) _ _
            (reports r over h.object.id rop_read (record h { rdb = p.1 })
              (
                record {
                  stream = s.stream;
                  rd_valid = w.2;
                  wr_valid = s.wr_valid;
                  counted = s.counted;
                },
                f,
              ))
            (λ x t. spawn_reader-IsSteady sys memory notify closes r over x.1 t))

  -- The write is over once its end has been reported.
  pub on_write-IsSteady :
      (r : ℕ) (h : Host) → IsSteady r true h → Ends (IsSteady r false) (on_write sys notify h)
  unfolding on_write
  on_write-IsSteady r h p =
      Ends-bind (λ (x : Bool × Host). IsSteady r true x.1) (IsSteady r false) _ _
        (reports r true h.object.id rop_write h p)
        (λ x (s, f).
          spawn_writer-IsSteady sys memory notify closes r false
            (record (x.1) { is_writing = false })
            (record {
              stream = s.stream;
              rd_valid = s.rd_valid;
              wr_valid = s.wr_valid;
              counted = s.counted;
            })
            (ready x.1 f))
    where
      ready : (d : Host) → Flows true d → Ready false (record d { is_writing = false })
      ready d (inl c) = inl c
      ready d (inr (k, inl (w, o, n, e))) = absurd cc
      ready d (inr (k, inr (w, n))) = inr (refl, refl, omega (arith, n), k)

  pub cancel-IsSteady :
      (r : ℕ) (over : Bool) (h : Host) → IsSound r h → Ends (IsSteady r over) (cancel sys notify h)
  cancel-IsSteady r over h s =
      Ends-map (IsGone r) (IsSteady r over) _ (cancel-IsGone sys memory notify closes r h s)
        (λ d g. (g.0, inl g.1))

  pub on_connect-IsSteady :
      (r : ℕ) (over : Bool) (h : Host)
      → IsSteady r over h
      → Ends (IsSteady r over) (on_connect sys notify h)
  unfolding on_connect welcome
  on_connect-IsSteady r over h p =
      Ends-bind (λ (x : Bool × Host). IsSteady r over x.1) (IsSteady r over) _ _
        (reports r over h.object.id rop_connect h p) (λ x t. choice x.0 x.1 t)
    where
      choice :
          (b : Bool) (d : Host)
          → IsSteady r over d
          → Ends (IsSteady r over) (welcome sys notify b d)
      choice false d t = cancel-IsSteady r over d t.0
      choice true d t = spawn_reader-IsSteady sys memory notify closes r over d t

  -- The handler of an operation, and what is left once the operation is deleted.
  pub deleted-IsSteady :
      (m : Option Host)
      → Ends (IsSteady 1 false) m
      → Ends (IsSteady 0 false) (m >>= (λ (d : Host). some (release d)))
  deleted-IsSteady m p =
      Ends-bind (IsSteady 1 false) (IsSteady 0 false) m _ p
        (λ d t. (release-IsSound 0 d t.0, release-Flows false d t.1))

  -- Either the connection is cancelled, or the handler goes on.
  pub guarded :
      (b : Bool) (h : Host) (m : Option Host)
      → IsSound 1 h
      → Ends (IsSteady 1 false) m
      → Ends (IsSteady 1 false) (if b then cancel sys notify h else m)
  guarded b h m s p = elim (Bool-cases b) [
    | inl e ↦ subst (Ends (IsSteady 1 false)) (sym (if_true b _ _ e)) (cancel-IsSteady 1 false h s)
    | inr e ↦ subst (Ends (IsSteady 1 false)) (sym (if_false b _ _ e)) p
  ]

  -- A bounced operation, which keeps its reference.
  pub bounce-IsSteady :
      (op : Operation) (h : Host)
      → IsSound 1 h
      → Flows false (pend op h)
      → Ends (IsSteady 0 false) (bounce sys notify op h)
  unfolding bounce
  bounce-IsSteady op h s f = elim (Bool-cases (sys.starts h)) [
    | inl e ↦
        subst (Ends (IsSteady 0 false)) (sym (if_true (sys.starts h) _ _ e))
          (pend-IsSound 0 op h s, f)
    | inr e ↦ subst (Ends (IsSteady 0 false)) (sym (if_false (sys.starts h) _ _ e)) (
        Ends-bind (IsGone 1) (IsSteady 0 false) _ _ (cancel-IsGone sys memory notify closes 1 h s)
          (λ d g. (pend-IsSound 0 lost d g.0, inl g.1)))
  ]
