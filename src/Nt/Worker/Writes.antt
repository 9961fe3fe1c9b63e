-- ===== src/Nt/Worker/Writes.antt =====
-- The constructor of a write keeps the bytes and the references of a stream connection.
use librascal.Prelude.{
  ℕ, suc, ◌≡◌, ◌≢◌, refl, sym, ap, ap₂, subst, ◌∙◌, ◌⊎◌, inl, inr, Bool, true, false, Option, none,
  List, [], ◌∷◌, ◌++◌, take, drop, arith, if_true, if_false, Bool-cases,
}
use librascal.Chain as Chain
use librascal.Chain.{DataChain, Allocator}
use librascal.Chain.Valid.{IsChain, contents}
use librascal.Chain.Read.{extract-take-drop}
use librascal.Connection.{Op}
use librascal.Connection.Valid.{Ends}
use librascal.Connection.Stream.Drain.{take-nil}
use librascal.Nt.{
  writing, Host, System, extract_from, hold, pend, start_write, new_writer, spawn_writer,
}
use librascal.Nt.Worker.Steady.{
  writers, tally, IsSound, IsKept, Flows, IsSteady, hold-IsSound, release-IsSound, release-Flows,
  pend-IsSound, writers-append, in_flight-append, in_flight_none,
}
use librascal.Connection.Stream.Sending.{take-drop}
use librascal.Nt.Worker.Calls.{Closes, given_up, extract_from-stream}

-- Before a write is started with the bytes `out`, which were taken from the buffer.
Starts : Bool → List ℕ → Host → Type 0
Starts over out h =
    (h.object.cancelled ≡ true)
    ⊎ ((h.is_writing ≡ false)
        × (over ≡ false)
        × (writers h.pending ≡ 0)
        × (h.written ≡ h.sent ++ (out ++ contents h.wrb))
        × (out ≡ [] → contents h.wrb ≡ []))

-- A connection that may start a write.
abbrev pub Ready : Bool → Host → Type 0
Ready over h =
    (h.object.cancelled ≡ true)
    ⊎ ((h.is_writing ≡ false) × (over ≡ false) × (writers h.pending ≡ 0) × IsKept h)

module _ (sys : System) (memory : (h : Host) (n : ℕ) → sys.new h n ≢ none)
    (notify : ℕ → Op → Host → Option (Bool × Host)) (closes : Closes notify) where
  start_write-IsSteady :
      (r : ℕ) (over : Bool) (out : List ℕ) (h : Host)
      → IsSound (suc r) h
      → Starts over out h
      → Ends (IsSteady r over) (start_write sys notify out h)
  unfolding start_write Starts
  start_write-IsSteady r over [] h s f = (release-IsSound r h s, release-Flows over h (idle f))
    where
      idle : Starts over [] h → Flows over h
      idle (inl c) = inl c
      idle (inr (w, o, n, k, e)) = inr (
        k ∙ ap (λ l. h.sent ++ (l ++ contents h.wrb)) (sym (in_flight_none h.pending n)),
        inl (w, o, n, e refl),
      )
  start_write-IsSteady r over (x ∷ xs) h s f = elim (Bool-cases (sys.starts busy)) [
    | inl e ↦
        subst (Ends (IsSteady r over)) (sym (if_true (sys.starts busy) _ _ e))
          (pend-IsSound r (writing (x ∷ xs)) busy sound, going f)
    | inr e ↦
        subst (Ends (IsSteady r over)) (sym (if_false (sys.starts busy) _ _ e))
          (given_up sys memory notify closes r over busy sound)
  ]
    where
      busy : Host
      busy = record h { is_writing = true }

      sound : IsSound (suc r) busy
      sound = record {
        stream = s.stream;
        rd_valid = s.rd_valid;
        wr_valid = s.wr_valid;
        counted = s.counted;
      }

      going : Starts over (x ∷ xs) h → Flows over (pend (writing (x ∷ xs)) busy)
      going (inl c) = inl c
      going (inr (w, o, n, k, e)) = inr (
        k
            ∙ ap (λ l. h.sent ++ (l ++ contents h.wrb))
                (sym (
                  in_flight-append h.pending (writing (x ∷ xs))
                  ∙ ap (λ l. l ++ (x ∷ xs)) (in_flight_none h.pending n))),
        inr (refl, omega (arith, writers-append h.pending (writing (x ∷ xs)), ap tally o)),
      )

  new_writer-IsSteady :
      (r : ℕ) (over : Bool) (h : Host)
      → IsSound r h
      → Ready over h
      → Ends (IsSteady r over) (new_writer sys notify false h)
  unfolding new_writer Starts
  new_writer-IsSteady r over h s f = elim (Bool-cases h.is_writing) [
    | inl e ↦ subst (Ends (IsSteady r over)) (sym (if_true h.is_writing _ _ e)) (
      release-IsSound r (hold h) (hold-IsSound r h s),
      release-Flows over (hold h) (over_now e f),
    )
    | inr e ↦
        subst (Ends (IsSteady r over)) (sym (if_false h.is_writing _ _ e))
          (start_write-IsSteady r over (out.0) (record (hold h) { wrb = out.1 }) sound (taken f))
  ]
    where
      out : List ℕ × DataChain
      out = extract_from h h.wrb 2048

      same : out ≡ Chain.extract h.wrb 2048
      same = extract_from-stream h h.wrb 2048 s.stream

      parts :
          (out.0 ≡ take 2048 (contents h.wrb))
          × (contents out.1 ≡ drop 2048 (contents h.wrb))
          × IsChain out.1
      parts =
          subst
            (λ (o : List ℕ × DataChain).
              (o.0 ≡ take 2048 (contents h.wrb))
              × (contents o.1 ≡ drop 2048 (contents h.wrb))
              × IsChain o.1)
            (sym same) (extract-take-drop h.wrb 2048 s.wr_valid)

      sound : IsSound (suc r) (record (hold h) { wrb = out.1 })
      sound = record {
        stream = s.stream;
        rd_valid = s.rd_valid;
        wr_valid = parts.2;
        counted = (hold-IsSound r h s).counted;
      }

      over_now : h.is_writing ≡ true → Ready over h → Flows over h
      over_now e (inl c) = inl c
      over_now e (inr (w, o, n, k)) = absurd cc

      nothing : out.0 ≡ [] → contents out.1 ≡ []
      nothing e =
          parts.1 ∙ ap (drop 2048) (take-nil 2048 (contents h.wrb) (omega arith) (sym parts.0 ∙ e))

      taken : Ready over h → Starts over (out.0) (record (hold h) { wrb = out.1 })
      taken (inl c) = inl c
      taken (inr (w, o, n, k)) = inr (
        w,
        o,
        n,
        k
            ∙ ap (λ l. h.sent ++ l)
                (ap (λ l. l ++ contents h.wrb) (in_flight_none h.pending n)
                  ∙ sym (
                      ap₂ (λ (l m : List ℕ). l ++ m) parts.0 parts.1
                      ∙ take-drop 2048 (contents h.wrb))),
        nothing,
      )

  pub spawn_writer-IsSteady :
      (r : ℕ) (over : Bool) (h : Host)
      → IsSound r h
      → Ready over h
      → Ends (IsSteady r over) (spawn_writer sys notify h)
  unfolding spawn_writer
  spawn_writer-IsSteady r over h s f =
      subst (Ends (IsSteady r over)) (sym (if_false h.datagram _ _ s.stream))
        (new_writer-IsSteady r over h s f)
