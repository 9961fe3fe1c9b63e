-- ===== src/Nt/Worker/Calls.antt =====
-- Calls of the dispatcher, of the user and of the constructors of operations keep the bytes and the
-- references of a stream connection.
use librascal.Prelude.{
  ℕ, suc, ◌≡◌, ◌≢◌, refl, sym, subst, inl, inr, Bool, true, false, Option, none, some, if_true,
  if_false, Bool-cases,
}
use librascal.Chain as Chain
use librascal.Chain.{DataChain, Allocator}
use librascal.Connection.{Op, rop_close, stream_buffer, ◌>>=◌}
use librascal.Connection.Valid.{Ends, Ends-bind}
use librascal.Nt.{
  reading, Host, System, buffer_of, extract_from, hold, release, get_error, cancel, new_reader,
  spawn_reader,
}
use librascal.Nt.Worker.Steady.{
  IsSound, IsSteady, hold-IsSound, release-IsSound, release-Flows, pend-IsSound, pend-Flows,
}

-- What the report of a closure and any report keep.
abbrev pub Closes : (ℕ → Op → Host → Option (Bool × Host)) → Type 0
Closes notify =
    (r code : ℕ) (h : Host)
    → IsSound r h
    → Ends (λ (x : Bool × Host). IsSound r x.1) (notify code rop_close h)

abbrev pub Reports : (ℕ → Op → Host → Option (Bool × Host)) → Type 0
Reports notify =
    (r : ℕ) (over : Bool) (code : ℕ) (op : Op) (h : Host)
    → IsSteady r over h
    → Ends (λ (x : Bool × Host). IsSteady r over x.1) (notify code op h)

-- A cancelled connection in the middle of anything.
abbrev pub IsGone : ℕ → Host → Type 0
IsGone r h = IsSound r h × (h.object.cancelled ≡ true)

pub buffer_of-stream : (h : Host) → h.datagram ≡ false → buffer_of h ≡ stream_buffer
buffer_of-stream h e = if_false h.datagram _ _ e

pub extract_from-stream :
    (h : Host) (c : DataChain) (n : ℕ) → h.datagram ≡ false → extract_from h c n ≡ Chain.extract c n
extract_from-stream h c n e = if_false h.datagram _ _ e

module _ (sys : System) (memory : (h : Host) (n : ℕ) → sys.new h n ≢ none)
    (notify : ℕ → Op → Host → Option (Bool × Host)) (closes : Closes notify) where
  pub cancel-IsGone : (r : ℕ) (h : Host) → IsSound r h → Ends (IsGone r) (cancel sys notify h)
  unfolding cancel
  cancel-IsGone r h s = elim (Bool-cases h.object.cancelled) [
    | inl e ↦ subst (Ends (IsGone r)) (sym (if_true h.object.cancelled _ _ e)) (s, e)
    | inr e ↦ subst (Ends (IsGone r)) (sym (if_false h.object.cancelled _ _ e)) (
        Ends-bind (λ (x : Bool × Host). IsSound r x.1) (IsGone r) _ _
          (closes r (get_error sys notify h) h s)
          (λ x t. (
            record {
              stream = t.stream;
              rd_valid = t.rd_valid;
              wr_valid = t.wr_valid;
              counted = t.counted;
            },
            refl,
          )))
  ]

  -- An operation that could not be started.
  pub given_up :
      (r : ℕ) (over : Bool) (h : Host)
      → IsSound (suc r) h
      → Ends (IsSteady r over) (cancel sys notify h >>= (λ (d : Host). some (release d)))
  given_up r over h s =
      Ends-bind (IsGone (suc r)) (IsSteady r over) _ _ (cancel-IsGone (suc r) h s)
        (λ d g. (release-IsSound r d g.0, release-Flows over d (inl g.1)))

  pub new_reader-IsSteady :
      (r : ℕ) (over : Bool) (h : Host)
      → IsSteady r over h
      → Ends (IsSteady r over) (new_reader sys notify h)
  unfolding new_reader
  new_reader-IsSteady r over h (s, f) = elim (Bool-cases (sys.starts (hold h))) [
    | inl e ↦ subst (Ends (IsSteady r over)) (sym (if_true (sys.starts (hold h)) _ _ e)) (
      pend-IsSound r reading (hold h) (hold-IsSound r h s),
      pend-Flows over reading (hold h) refl f,
    )
    | inr e ↦
        subst (Ends (IsSteady r over)) (sym (if_false (sys.starts (hold h)) _ _ e))
          (given_up r over (hold h) (hold-IsSound r h s))
  ]

  pub spawn_reader-IsSteady :
      (r : ℕ) (over : Bool) (h : Host)
      → IsSteady r over h
      → Ends (IsSteady r over) (spawn_reader sys notify h)
  unfolding spawn_reader
  spawn_reader-IsSteady r over h (s, f) =
      subst (Ends (IsSteady r over)) (sym (if_false h.datagram _ _ s.stream))
        (new_reader-IsSteady r over h (s, f))
