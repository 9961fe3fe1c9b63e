-- ===== src/Nt/Worker/Steady.antt =====
-- The bytes and the references of a stream connection and its operations.
use librascal.Prelude.{
  ℕ, zero, suc, ◌+◌, ◌%◌, ◌^◌, ◌≡◌, refl, sym, ap, subst, ◌∙◌, ◌⊎◌, inl, inr, Bool, true, false,
  Option, none, some, List, [], ◌∷◌, ◌++◌, append-nil, append_assoc, length, length-append, arith,
}
use librascal.Chain.Valid.{IsChain, contents}
use librascal.Connection.{◌>>=◌}
use librascal.Nt.{
  Operation, reading, writing, connecting, accepting, read_posted, write_posted, lost, Host, hold,
  release, pend,
}
use librascal.Nt.Worker.{take_out}

-- The bytes of the writes in an operation, and whether it is one.
abbrev pub bytes_of : Operation → List ℕ
bytes_of (writing bytes) = bytes
bytes_of (write_posted bytes) = bytes
bytes_of _ = []

abbrev pub writes : Operation → ℕ
writes (writing bytes) = 1
writes (write_posted bytes) = 1
writes _ = 0

abbrev pub in_flight : List Operation → List ℕ
in_flight [] = []
in_flight (op ∷ ops) = bytes_of op ++ in_flight ops

abbrev pub writers : List Operation → ℕ
writers [] = 0
writers (op ∷ ops) = writes op + writers ops

abbrev pub tally : Bool → ℕ
tally true = 1
tally false = 0

-- A stream connection with valid buffers, whose count is the references of its operations and `refs`
-- others.
pub record IsSound (refs : ℕ) (h : Host) : Type 0 where
  pub stream : h.datagram ≡ false
  pub rd_valid : IsChain h.rdb
  pub wr_valid : IsChain h.wrb
  pub counted : h.object.refc ≡ (refs + length h.pending) % 2 ^ 32

-- No byte given to `write` is lost or out of order.
abbrev pub IsKept : Host → Type 0
IsKept h = h.written ≡ h.sent ++ (in_flight h.pending ++ contents h.wrb)

-- Nothing to write; or one write, in flight or, as `over` says, whose end is being reported.
abbrev pub IsIdle : Bool → Host → Type 0
IsIdle over h =
    (h.is_writing ≡ false) × (over ≡ false) × (writers h.pending ≡ 0) × (contents h.wrb ≡ [])

abbrev pub IsBusy : Bool → Host → Type 0
IsBusy over h = (h.is_writing ≡ true) × (writers h.pending + tally over ≡ 1)

abbrev pub Flows : Bool → Host → Type 0
Flows over h = (h.object.cancelled ≡ true) ⊎ (IsKept h × (IsIdle over h ⊎ IsBusy over h))

abbrev pub IsSteady : ℕ → Bool → Host → Type 0
IsSteady refs over h = IsSound refs h × Flows over h

pub hold-IsSound : (r : ℕ) (h : Host) → IsSound r h → IsSound (suc r) (hold h)
hold-IsSound r h s = record {
  stream = s.stream;
  rd_valid = s.rd_valid;
  wr_valid = s.wr_valid;
  counted = omega (arith, s.counted);
}

pub release-IsSound : (r : ℕ) (h : Host) → IsSound (suc r) h → IsSound r (release h)
unfolding release
release-IsSound r h s = record {
  stream = s.stream;
  rd_valid = s.rd_valid;
  wr_valid = s.wr_valid;
  counted = omega (arith, s.counted);
}

pub release-Flows : (over : Bool) (h : Host) → Flows over h → Flows over (release h)
unfolding release
release-Flows over h f = f

pub pend-IsSound : (r : ℕ) (op : Operation) (h : Host) → IsSound (suc r) h → IsSound r (pend op h)
pend-IsSound r op h s = record {
  stream = s.stream;
  rd_valid = s.rd_valid;
  wr_valid = s.wr_valid;
  counted = omega (arith, s.counted, length-append h.pending (op ∷ []));
}

pub writers-append :
    (ops : List Operation) (op : Operation) → writers (ops ++ op ∷ []) ≡ writers ops + writes op
writers-append [] op = omega arith
writers-append (x ∷ ops) op = omega (arith, writers-append ops op)

pub in_flight-append :
    (ops : List Operation) (op : Operation)
    → in_flight (ops ++ op ∷ []) ≡ in_flight ops ++ bytes_of op
in_flight-append [] op = append-nil (bytes_of op)
in_flight-append (x ∷ ops) op =
    ap (λ l. bytes_of x ++ l) (in_flight-append ops op)
    ∙ sym (append_assoc (bytes_of x) (in_flight ops) (bytes_of op))

no_bytes : (op : Operation) → writes op ≡ 0 → bytes_of op ≡ []
no_bytes reading e = refl
no_bytes (writing bytes) e = absurd (omega arith)
no_bytes connecting e = refl
no_bytes accepting e = refl
no_bytes read_posted e = refl
no_bytes (write_posted bytes) e = absurd (omega arith)
no_bytes lost e = refl

pub in_flight_none : (ops : List Operation) → writers ops ≡ 0 → in_flight ops ≡ []
in_flight_none [] e = refl
in_flight_none (op ∷ ops) e =
    ap (λ l. l ++ in_flight ops) (no_bytes op (omega arith)) ∙ in_flight_none ops (omega arith)

-- An operation that writes nothing changes nothing of what flows.
pub pend-Flows :
    (over : Bool) (op : Operation) (h : Host)
    → writes op ≡ 0
    → Flows over h
    → Flows over (pend op h)
pend-Flows over op h z (inl c) = inl c
pend-Flows over op h z (inr (k, f)) =
    inr (k ∙ ap (λ l. h.sent ++ (l ++ contents h.wrb)) (sym same), state f)
  where
    same : in_flight (h.pending ++ op ∷ []) ≡ in_flight h.pending
    same =
        in_flight-append h.pending op
        ∙ ap (λ l. in_flight h.pending ++ l) (no_bytes op z)
        ∙ append-nil (in_flight h.pending)

    state : (IsIdle over h ⊎ IsBusy over h) → IsIdle over (pend op h) ⊎ IsBusy over (pend op h)
    state (inl (w, o, n, e)) = inl (w, o, omega (arith, writers-append h.pending op), e)
    state (inr (w, n)) = inr (w, omega (arith, writers-append h.pending op))

-- What is left when an operation is taken out.
pub record Taken (ops : List Operation) (op : Operation) (rest : List Operation) : Type 0 where
  pub one_less : length ops ≡ suc (length rest)
  pub shared : writers ops ≡ writes op + writers rest
  pub others : writes op ≡ 0 → in_flight ops ≡ in_flight rest
  pub alone : writers rest ≡ 0 → in_flight ops ≡ bytes_of op

abbrev Found : Type 0
Found = Operation × List Operation

found_injective : (r t : Found) → Path (Option Found) (some r) (some t) → r ≡ t
found_injective r t e = cc

behind : Operation → Found → Option Found
behind x r = some (r.0, x ∷ r.1)

Taken-behind :
    (x : Operation) (ops rest : List Operation) (op : Operation)
    → Taken ops op rest
    → Taken (x ∷ ops) op (x ∷ rest)
Taken-behind x ops rest op t = record {
  one_less = ap suc t.one_less;
  shared = omega (arith, t.shared);
  others = λ z. ap (λ l. bytes_of x ++ l) (t.others z);
  alone = λ z. ap (λ l. l ++ in_flight ops) (no_bytes x (omega arith)) ∙ t.alone (omega arith);
}

pub take_out-Taken :
    (i : ℕ) (ops : List Operation) (op : Operation) (rest : List Operation)
    → take_out i ops ≡ some (op, rest)
    → Taken ops op rest
unfolding take_out behind
take_out-Taken i [] op rest e = absurd cc
take_out-Taken zero (x ∷ ops) op rest e =
    subst (λ (r : Found). Taken (x ∷ ops) r.0 r.1) (found_injective (x, ops) (op, rest) e)
      (record {
        one_less = refl;
        shared = refl;
        others = λ z. ap (λ l. l ++ in_flight ops) (no_bytes x z);
        alone = λ z. ap (λ l. bytes_of x ++ l) (in_flight_none ops z) ∙ append-nil (bytes_of x);
      })
take_out-Taken (suc i) (x ∷ ops) op rest e =
    go (take_out i ops) (λ op' rest' p. take_out-Taken i ops op' rest' p) e refl
  where
    go :
        (found : Option Found)
        → ((op' : Operation) (rest' : List Operation)
            → take_out i ops ≡ some (op', rest')
            → Taken ops op' rest')
        → (found >>= behind x) ≡ some (op, rest)
        → take_out i ops ≡ found
        → Taken (x ∷ ops) op rest
    go none ih q p = absurd cc
    go (some (op', rest')) ih q p =
        subst (λ (r : Found). Taken (x ∷ ops) r.0 r.1)
          (found_injective (op', x ∷ rest') (op, rest) q)
          (Taken-behind x ops rest' op' (ih op' rest' p))
