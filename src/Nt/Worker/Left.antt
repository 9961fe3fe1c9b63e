-- ===== src/Nt/Worker/Left.antt =====
-- A stream connection from which an operation has been taken out.
use librascal.Prelude.{
  ℕ, ◌≤◌, ◌≡◌, sym, ap, ap₂, ◌∙◌, ◌⊎◌, inl, inr, true, false, List, ◌++◌, append_assoc, length,
  take_all, arith,
}
use librascal.Chain.Valid.{contents}
use librascal.Nt.{Operation, writing, Host, pend}
use librascal.Nt.Worker.{Completion, taken_by}
use librascal.Nt.Worker.Steady.{
  in_flight, writers, writes, bytes_of, IsSound, IsIdle, IsBusy, Flows, writers-append,
  in_flight-append, in_flight_none, Taken,
}

-- A connection from which an operation has been taken out.
abbrev pub left : Host → List Operation → Host
left h rest = record h { pending = rest }

module _ (h : Host) (op : Operation) (rest : List Operation) (t : Taken h.pending op rest)
    (s : IsSound 0 h) (f : Flows false h) where
  pub left-IsSound : IsSound 1 (left h rest)
  left-IsSound = record {
    stream = s.stream;
    rd_valid = s.rd_valid;
    wr_valid = s.wr_valid;
    counted = omega (arith, s.counted, t.one_less);
  }

  -- Without a write, nothing changes of what flows.
  pub left-Flows : writes op ≡ 0 → Flows false (left h rest)
  left-Flows z = still f
    where
      still : Flows false h → Flows false (left h rest)
      still (inl c) = inl c
      still (inr (k, i)) = inr (k ∙ ap (λ l. h.sent ++ (l ++ contents h.wrb)) (t.others z), state i)
        where
          state :
              (IsIdle false h ⊎ IsBusy false h)
              → IsIdle false (left h rest) ⊎ IsBusy false (left h rest)
          state (inl (w, o, n, e)) = inl (w, o, omega (arith, t.shared), e)
          state (inr (w, n)) = inr (w, omega (arith, t.shared))

  -- The bytes of a write that is over are sent.
  pub left-taken :
      (e : Completion) (bytes : List ℕ)
      → writes op ≡ 1
      → bytes_of op ≡ bytes
      → e.transferred ≡ length (in_flight h.pending)
      → Flows true (taken_by e bytes (left h rest))
  left-taken e bytes z b p = still f
    where
      still : Flows false h → Flows true (taken_by e bytes (left h rest))
      still (inl c) = inl c
      still (inr (k, inl (w, o, n, i))) = absurd (omega (arith, t.shared))
      still (inr (k, inr (w, n))) =
          let none_left : writers rest ≡ 0 = omega (arith, t.shared) in
          inr (
            k
                ∙ ap (λ l. h.sent ++ (l ++ contents h.wrb)) (t.alone none_left ∙ b)
                ∙ sym (append_assoc h.sent bytes (contents h.wrb))
                ∙ ap₂ (λ (l m : List ℕ). (h.sent ++ l) ++ (m ++ contents h.wrb))
                    (sym (take_all e.transferred bytes (enough none_left)))
                    (sym (in_flight_none rest none_left)),
            inr (w, omega (arith, t.shared)),
          )
        where
          enough : writers rest ≡ 0 → length bytes ≤ e.transferred
          enough n = omega (arith, p, ap length (t.alone n ∙ b))

  -- A write that could not be started at once waits for the thread, or is started.
  pub left-posted :
      (bytes : List ℕ)
      → writes op ≡ 1
      → bytes_of op ≡ bytes
      → Flows false (pend (writing bytes) (left h rest))
  left-posted bytes z b = still f
    where
      still : Flows false h → Flows false (pend (writing bytes) (left h rest))
      still (inl c) = inl c
      still (inr (k, inl (w, o, n, i))) = absurd (omega (arith, t.shared))
      still (inr (k, inr (w, n))) =
          let none_left : writers rest ≡ 0 = omega (arith, t.shared) in
          inr (
            k
                ∙ ap (λ l. h.sent ++ (l ++ contents h.wrb))
                    (t.alone none_left
                      ∙ b
                      ∙ sym (
                          in_flight-append rest (writing bytes)
                          ∙ ap (λ l. l ++ bytes) (in_flight_none rest none_left))),
            inr (w, omega (arith, t.shared, writers-append rest (writing bytes))),
          )
