-- ===== src/Nt/Worker/Talks.antt =====
-- What the user does in a call of the dispatcher, for a user who only reads when told of a closure.
use librascal.Prelude.{
  ℕ, suc, ◌≡◌, ◌≢◌, sym, subst, inl, Bool, false, Option, none, List, [], ◌∷◌, ◌++◌, All,
}
use librascal.Chain.{DataChain}
use librascal.Chain.Line.{gets}
use librascal.Chain.Valid.{IsChain}
use librascal.Chain.Read.{extract-take-drop, remove-drop}
use librascal.Connection.{Op, rop_close, Call, Answer, Act, write, read, reads, cancels}
use librascal.Connection.Valid.{Ends, Ends-bind, Ends-map, gets-Valid}
use librascal.Nt.{Host, System, extract_from, read_from, reads_from, act, perform, disp}
use librascal.Nt.Worker.Steady.{IsSound, IsSteady}
use librascal.Nt.Worker.Calls.{Closes, Reports, IsGone, cancel-IsGone, extract_from-stream}
use librascal.Nt.Worker.Appends.{write_to-IsSteady}

abbrev pub IsRead : Act → Type 0
IsRead (read size) = Unit
IsRead (reads size flags) = Unit
IsRead _ = ⊥

-- Who is told of a closure only reads.
abbrev pub IsCalm : (List Call → Answer) → Type 0
IsCalm client =
    (calls : List Call) (code : ℕ)
    → All IsRead (client (calls ++ record { code = code; op = rop_close } ∷ [])).acts

IsSound-rdb :
    (r : ℕ) (h : Host) (rdb : DataChain)
    → IsChain rdb
    → IsSound r h
    → IsSound r (record h { rdb = rdb })
IsSound-rdb r h rdb v s = record {
  stream = s.stream;
  rd_valid = v;
  wr_valid = s.wr_valid;
  counted = s.counted;
}

pub IsSound-calls :
    (r : ℕ) (h : Host) (calls : List Call) → IsSound r h → IsSound r (record h { calls = calls })
IsSound-calls r h calls s = record {
  stream = s.stream;
  rd_valid = s.rd_valid;
  wr_valid = s.wr_valid;
  counted = s.counted;
}

module _ (sys : System) (memory : (h : Host) (n : ℕ) → sys.new h n ≢ none)
    (notify : ℕ → Op → Host → Option (Bool × Host)) where
  -- A read changes the buffer of what was received alone.
  Ends-read :
      (P : Host → Type 0) (a : Act) (h : Host)
      → IsRead a
      → h.datagram ≡ false
      → IsChain h.rdb
      → ((rdb : DataChain) → IsChain rdb → P (record h { rdb = rdb }))
      → Ends P (act sys notify a h)
  unfolding act read_from reads_from
  Ends-read P (write src) h i d v p = absurd i
  Ends-read P (read size) h i d v p = p (extract_from h h.rdb size).1 (
      subst (λ (o : List ℕ × DataChain). IsChain o.1) (sym (extract_from-stream h h.rdb size d))
        (extract-take-drop h.rdb size v).2)
  Ends-read P (reads size flags) h i d v p =
      p (gets h.rdb size flags).1
        (gets-Valid IsChain h.rdb size flags v (λ n. (remove-drop h.rdb n v).0))
  Ends-read P cancels h i d v p = absurd i

  pub perform-IsSound :
      (r : ℕ) (acts : List Act) (h : Host)
      → All IsRead acts
      → IsSound r h
      → Ends (IsSound r) (perform (act sys notify) acts h)
  unfolding perform
  perform-IsSound r [] h i s = s
  perform-IsSound r (a ∷ acts) h i s =
      Ends-bind (IsSound r) (IsSound r) _ _
        (Ends-read (IsSound r) a h i.0 s.stream s.rd_valid (λ rdb v. IsSound-rdb r h rdb v s))
        (λ d t. perform-IsSound r acts d i.1 t)

  -- Any act of the user, where a cancellation ends.
  pub act-IsSteady :
      Closes notify
      → (r : ℕ) (over : Bool) (a : Act) (h : Host) → IsSteady r over h
      → Ends (IsSteady r over) (act sys notify a h)
  unfolding act
  act-IsSteady closes r over (write src) h p =
      write_to-IsSteady sys memory notify closes r over src h p
  act-IsSteady closes r over (read size) h (s, f) =
      Ends-read (IsSteady r over) (read size) h tt s.stream s.rd_valid
        (λ rdb v. (IsSound-rdb r h rdb v s, f))
  act-IsSteady closes r over (reads size flags) h (s, f) =
      Ends-read (IsSteady r over) (reads size flags) h tt s.stream s.rd_valid
        (λ rdb v. (IsSound-rdb r h rdb v s, f))
  act-IsSteady closes r over cancels h (s, f) =
      Ends-map (IsGone r) (IsSteady r over) _ (cancel-IsGone sys memory notify closes r h s)
        (λ d g. (g.0, inl g.1))

  pub perform-IsSteady :
      Closes notify
      → (r : ℕ) (over : Bool) (acts : List Act) (h : Host) → IsSteady r over h
      → Ends (IsSteady r over) (perform (act sys notify) acts h)
  unfolding perform
  perform-IsSteady closes r over [] h p = p
  perform-IsSteady closes r over (a ∷ acts) h p =
      Ends-bind (IsSteady r over) (IsSteady r over) _ _ (act-IsSteady closes r over a h p)
        (λ d t. perform-IsSteady closes r over acts d t)

-- A closure is reported once the user has one level to answer in, anything else once there are two.
module _ (sys : System) (memory : (h : Host) (n : ℕ) → sys.new h n ≢ none)
    (client : List Call → Answer) (calm : IsCalm client) where
  pub disp-Closes : (fuel : ℕ) → Closes (disp sys client (suc fuel))
  unfolding disp
  disp-Closes fuel r code h s =
      let calls = h.calls ++ record { code = code; op = rop_close } ∷ [] in
      Ends-bind (IsSound r) (λ (x : Bool × Host). IsSound r x.1) _ _
        (perform-IsSound sys memory (disp sys client fuel) r (client calls).acts
          (record h { calls = calls }) (calm h.calls code) (IsSound-calls r h calls s))
        (λ d t. t)

  pub disp-Reports : (fuel : ℕ) → Reports (disp sys client (suc (suc fuel)))
  unfolding disp
  disp-Reports fuel r over code op h (s, f) =
      let calls = h.calls ++ record { code = code; op = op } ∷ [] in
      Ends-bind (IsSteady r over) (λ (x : Bool × Host). IsSteady r over x.1) _ _
        (perform-IsSteady sys memory (disp sys client (suc fuel)) (disp-Closes fuel) r over
          (client calls).acts (record h { calls = calls }) (IsSound-calls r h calls s, f))
        (λ d t. t)
