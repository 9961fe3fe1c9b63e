-- ===== src/Nt/Worker/Appends.antt =====
-- What `write` keeps of a stream connection.
use librascal.Prelude.{
  ℕ, ◌≡◌, ◌≢◌, sym, ap, ap₂, subst, ◌∙◌, inl, inr, Bool, true, false, ◌&&◌, not, Option, none, List,
  ◌++◌, append_assoc, if_true, if_false, Bool-cases,
}
use librascal.Chain.{DataChain}
use librascal.Chain.Valid.{IsChain, contents}
use librascal.Chain.Append.{Appended-whole, append-Appended}
use librascal.Connection.{Op, Buffer}
use librascal.Connection.Valid.{Ends, Ends-bind}
use librascal.Nt.{Host, System, buffer_of, write_to}
use librascal.Nt.Worker.Steady.{in_flight, IsSound, IsKept, Flows, IsSteady}
use librascal.Nt.Worker.Calls.{Closes, buffer_of-stream}
use librascal.Nt.Worker.Writes.{Ready, spawn_writer-IsSteady}

module _ (sys : System) (memory : (h : Host) (n : ℕ) → sys.new h n ≢ none)
    (notify : ℕ → Op → Host → Option (Bool × Host)) (closes : Closes notify) where
  -- All the bytes come into the buffer.
  pub append-Whole :
      (h : Host) (c : DataChain) (src : List ℕ)
      → h.datagram ≡ false
      → IsChain c
      → Ends
          (λ (p : Bool × DataChain).
            (p.0 ≡ true) × (contents p.1 ≡ contents c ++ src) × IsChain p.1)
          ((buffer_of h).append (sys.new h) c src)
  append-Whole h c src d v =
      let a = append-Appended (sys.new h) c src v in
      subst (λ (b : Buffer). Ends Whole (b.append (sys.new h) c src)) (sym (buffer_of-stream h d))
        (elim a.outcome [
          | inl (t, u) ↦ subst (Ends Whole) (sym a.returns) (t, Appended-whole a u, a.valid)
          | inr (t, (n, e)) ↦ absurd (memory h n e)
        ])
    where
      Whole : Bool × DataChain → Type 0
      Whole p = (p.0 ≡ true) × (contents p.1 ≡ contents c ++ src) × IsChain p.1

  pub write_to-IsSteady :
      (r : ℕ) (over : Bool) (src : List ℕ) (h : Host)
      → IsSteady r over h
      → Ends (IsSteady r over) (write_to sys notify src h)
  unfolding write_to
  write_to-IsSteady r over src h (s, f) =
      Ends-bind
        (λ (p : Bool × DataChain).
          (p.0 ≡ true) × (contents p.1 ≡ contents h.wrb ++ src) × IsChain p.1)
        (IsSteady r over) _ _ (append-Whole h h.wrb src s.stream s.wr_valid)
        (λ p (d, e, v). elim (Bool-cases h.is_writing) [
          | inl w ↦
              subst (Ends (IsSteady r over))
                (sym (if_false (p.0 && not h.is_writing) _ _ (ap₂ (λ a b. a && not b) d w)))
                (sound p.1 v, busy p.1 e w f)
          | inr w ↦
              subst (Ends (IsSteady r over))
                (sym (if_true (p.0 && not h.is_writing) _ _ (ap₂ (λ a b. a && not b) d w)))
                (spawn_writer-IsSteady sys memory notify closes r over (more p.1) (sound p.1 v)
                  (ready p.1 e w f))
        ])
    where
      more : DataChain → Host
      more wrb = record h { wrb = wrb; written = h.written ++ src }

      sound : (wrb : DataChain) → IsChain wrb → IsSound r (more wrb)
      sound wrb v = record {
        stream = s.stream;
        rd_valid = s.rd_valid;
        wr_valid = v;
        counted = s.counted;
      }

      kept : (wrb : DataChain) → contents wrb ≡ contents h.wrb ++ src → IsKept h → IsKept (more wrb)
      kept wrb e k =
          ap (λ l. l ++ src) k
          ∙ append_assoc h.sent (in_flight h.pending ++ contents h.wrb) src
          ∙ ap (λ l. h.sent ++ l)
              (append_assoc (in_flight h.pending) (contents h.wrb) src
                ∙ ap (λ l. in_flight h.pending ++ l) (sym e))

      busy :
          (wrb : DataChain)
          → contents wrb ≡ contents h.wrb ++ src
          → h.is_writing ≡ true
          → Flows over h
          → Flows over (more wrb)
      busy wrb e w (inl c) = inl c
      busy wrb e w (inr (k, inl (w', o, n, i))) = absurd cc
      busy wrb e w (inr (k, inr b)) = inr (kept wrb e k, inr b)

      ready :
          (wrb : DataChain)
          → contents wrb ≡ contents h.wrb ++ src
          → h.is_writing ≡ false
          → Flows over h
          → Ready over (more wrb)
      ready wrb e w (inl c) = inl c
      ready wrb e w (inr (k, inl (w', o, n, i))) = inr (w, o, n, kept wrb e k)
      ready wrb e w (inr (k, inr (w', b))) = absurd cc
