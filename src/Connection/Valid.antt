-- ===== src/Connection/Valid.antt =====
-- What a call of the dispatcher leaves alone, and that no buffer comes to a fault.
use librascal.Prelude.{
  ℕ, ◌%◌, ◌^◌, ◌≡◌, refl, ◌∙◌, Bool, true, Option, none, some, List, [], ◌∷◌, ◌++◌, length,
  Bool-cases, Option-cases, inl, inr,
}
use librascal.Chain.{DataChain, Allocator, remove}
use librascal.Chain.Line.{gets, find_eol, has_flag, rrf_measure, rrf_peek}
use librascal.Connection.{
  Op, Call, Connection, Act, write, read, reads, cancels, Answer, Buffer, ◌>>=◌, write_to,
  read_from, reads_from, perform, disp, cancel,
}

-- A call that comes to an end with a result for which P holds.
abbrev pub Ends {ℓ} : {A : Type ℓ} → (A → Type 0) → Option A → Type 0
Ends P none = ⊥
Ends P (some a) = P a

pub Ends-bind {ℓ κ} :
    {A : Type ℓ} {B : Type κ} (P : A → Type 0) (Q : B → Type 0) (m : Option A) (f : A → Option B)
    → Ends P m
    → ((a : A) → P a → Ends Q (f a))
    → Ends Q (m >>= f)
Ends-bind P Q none f e g = absurd e
Ends-bind P Q (some a) f e g = g a e

pub Ends-map {ℓ} :
    {A : Type ℓ} (P : A → Type 0) (Q : A → Type 0) (m : Option A)
    → Ends P m
    → ((a : A) → P a → Q a)
    → Ends Q m
Ends-map P Q none e g = absurd e
Ends-map P Q (some a) e g = g a e

pub Ends-result {ℓ} :
    {A : Type ℓ} (P : A → Type 0) (m : Option A) → Ends P m → (a : A) × (m ≡ some a) × P a
Ends-result P none e = absurd e
Ends-result P (some a) e = (a, refl, e)

-- What the handlers rely on of a kind of buffer.
pub record IsBuffer (b : Buffer) (Valid : DataChain → Type 0) : Type 0 where
  pub appends :
      (new : Allocator) (c : DataChain) (src : List ℕ)
      → Valid c
      → Ends (λ (r : Bool × DataChain). Valid r.1) (b.append new c src)
  pub removes : (c : DataChain) (size : ℕ) → Valid c → Valid (remove c size)

-- `gets` leaves the chain, or takes bytes off.
pub gets-Valid :
    (Valid : DataChain → Type 0) (c : DataChain) (size flags : ℕ)
    → Valid c
    → ((n : ℕ) → Valid (remove c n))
    → Valid (gets c size flags).1
unfolding gets
gets-Valid Valid c size flags v r = elim (Option-cases (find_eol c.items 0)) [
  | inl e ↦ rw (e, gets) v
  | inr (k, e) ↦
      rw (e, gets)
        (elim (Bool-cases (has_flag flags rrf_measure)) [
          | inl m ↦ rw m v
          | inr m ↦ rw m (elim (Bool-cases (has_flag flags rrf_peek)) [
            | inl p ↦ rw p v
            | inr p ↦ rw p (r (k % 2 ^ 32))
          ])
        ])
]

-- The members that the user's calls leave alone.
pub record Kept (Valid : DataChain → Type 0) (c c' : Connection) : Type 0 where
  pub mode_kept : c'.mode ≡ c.mode
  pub selected_kept : c'.selected ≡ c.selected
  pub refc_kept : c'.object.refc ≡ c.object.refc
  pub id_kept : c'.object.id ≡ c.object.id
  pub calls_kept : c'.calls ≡ c.calls
  pub sent_kept : c'.sent ≡ c.sent
  pub cancelled_kept : c.object.cancelled ≡ true → c'.object.cancelled ≡ true
  pub rd_valid : Valid c'.rd
  pub wr_valid : Valid c'.wr

-- A connection with a call of the dispatcher added.
abbrev pub called : ℕ → Op → Connection → Connection
called code op c = record c { calls = c.calls ++ record { code = code; op = op } ∷ [] }

module _ (b : Buffer) (Valid : DataChain → Type 0) (laws : IsBuffer b Valid)
    (new : Connection → Allocator) (client : List Call → Answer) where
  Kept-refl : (c : Connection) → Valid c.rd → Valid c.wr → Kept Valid c c
  Kept-refl c v w = record {
    mode_kept = refl;
    selected_kept = refl;
    refc_kept = refl;
    id_kept = refl;
    calls_kept = refl;
    sent_kept = refl;
    cancelled_kept = λ e. e;
    rd_valid = v;
    wr_valid = w;
  }

  Kept-trans : (c d e : Connection) → Kept Valid c d → Kept Valid d e → Kept Valid c e
  Kept-trans c d e k l = record {
    mode_kept = l.mode_kept ∙ k.mode_kept;
    selected_kept = l.selected_kept ∙ k.selected_kept;
    refc_kept = l.refc_kept ∙ k.refc_kept;
    id_kept = l.id_kept ∙ k.id_kept;
    calls_kept = l.calls_kept ∙ k.calls_kept;
    sent_kept = l.sent_kept ∙ k.sent_kept;
    cancelled_kept = λ p. l.cancelled_kept (k.cancelled_kept p);
    rd_valid = l.rd_valid;
    wr_valid = l.wr_valid;
  }

  -- A change of the buffers, or a cancellation, alone.
  Kept-rd :
      (c : Connection) (rd : DataChain)
      → Valid rd
      → Valid c.wr
      → Kept Valid c (record c { rd = rd })
  Kept-rd c rd v w = record {
    mode_kept = refl;
    selected_kept = refl;
    refc_kept = refl;
    id_kept = refl;
    calls_kept = refl;
    sent_kept = refl;
    cancelled_kept = λ e. e;
    rd_valid = v;
    wr_valid = w;
  }

  Kept-wr :
      (c : Connection) (wr : DataChain)
      → Valid c.rd
      → Valid wr
      → Kept Valid c (record c { wr = wr })
  Kept-wr c wr v w = record {
    mode_kept = refl;
    selected_kept = refl;
    refc_kept = refl;
    id_kept = refl;
    calls_kept = refl;
    sent_kept = refl;
    cancelled_kept = λ e. e;
    rd_valid = v;
    wr_valid = w;
  }

  Kept-cancel : (c : Connection) → Valid c.rd → Valid c.wr → Kept Valid c (cancel c)
  Kept-cancel c v w = record {
    mode_kept = refl;
    selected_kept = refl;
    refc_kept = refl;
    id_kept = refl;
    calls_kept = refl;
    sent_kept = refl;
    cancelled_kept = λ e. refl;
    rd_valid = v;
    wr_valid = w;
  }

  write_to-Kept :
      (src : List ℕ) (c : Connection)
      → Valid c.rd
      → Valid c.wr
      → Ends (Kept Valid c) (write_to b new client src c)
  unfolding write_to
  write_to-Kept src c v w =
      Ends-bind (λ (r : Bool × DataChain). Valid r.1) (Kept Valid c) (b.append (new c) c.wr src) _
        (laws.appends (new c) c.wr src w) (λ r u. Kept-wr c r.1 v u)

  pub perform-Kept :
      (acts : List Act) (c : Connection)
      → Valid c.rd
      → Valid c.wr
      → Ends (Kept Valid c) (perform b new client acts c)
  unfolding perform read_from reads_from
  perform-Kept [] c v w = Kept-refl c v w
  perform-Kept (write src ∷ acts) c v w =
      Ends-bind (Kept Valid c) (Kept Valid c) (write_to b new client src c) _
        (write_to-Kept src c v w)
        (λ c' k.
          Ends-map (Kept Valid c') (Kept Valid c) (perform b new client acts c')
            (perform-Kept acts c' k.rd_valid k.wr_valid) (λ d l. Kept-trans c c' d k l))
  perform-Kept (read size ∷ acts) c v w =
      let rd = remove c.rd (length (b.peek c.rd size)) in
      let u = laws.removes c.rd (length (b.peek c.rd size)) v in
      Ends-map (Kept Valid (record c { rd = rd })) (Kept Valid c)
        (perform b new client acts (record c { rd = rd })) (perform-Kept acts _ u w)
        (λ d l. Kept-trans c (record c { rd = rd }) d (Kept-rd c rd u w) l)
  perform-Kept (reads size flags ∷ acts) c v w =
      let rd = (gets c.rd size flags).1 in
      let u = gets-Valid Valid c.rd size flags v (λ n. laws.removes c.rd n v) in
      Ends-map (Kept Valid (record c { rd = rd })) (Kept Valid c)
        (perform b new client acts (record c { rd = rd })) (perform-Kept acts _ u w)
        (λ d l. Kept-trans c (record c { rd = rd }) d (Kept-rd c rd u w) l)
  perform-Kept (cancels ∷ acts) c v w =
      Ends-map (Kept Valid (cancel c)) (Kept Valid c) (perform b new client acts (cancel c))
        (perform-Kept acts _ v w) (λ d l. Kept-trans c (cancel c) d (Kept-cancel c v w) l)

  pub disp-Kept :
      (code : ℕ) (op : Op) (c : Connection)
      → Valid c.rd
      → Valid c.wr
      → Ends
          (λ (r : Bool × Connection). Kept Valid (called code op c) r.1)
          (disp b new client code op c)
  unfolding disp
  disp-Kept code op c v w =
      let d = called code op c in
      Ends-bind (Kept Valid d) (λ (r : Bool × Connection). Kept Valid d r.1)
        (perform b new client (client d.calls).acts d) _ (perform-Kept (client d.calls).acts d v w)
        (λ c' k. k)
