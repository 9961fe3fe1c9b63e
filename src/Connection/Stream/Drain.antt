-- ===== src/Connection/Stream/Drain.antt =====
-- What `on_write` sends, and what it leaves in the queue.
use librascal.Prelude.{
  ℕ, zero, suc, ◌<◌, ◌≡◌, refl, sym, ap, subst, ◌∙◌, Bool, true, false, some, List, [], ◌∷◌, ◌++◌,
  append-nil, append_assoc, length, take, drop, length-take, length-drop, inl, inr, ◌⊎◌,
  if◌then◌else◌, arith,
}
use librascal.Chain.{Allocator, remove, peek}
use librascal.Chain.Valid.{IsChain, contents}
use librascal.Chain.Read.{peek-take, remove-drop, drop_taken}
use librascal.Connection.{on_error, ◌>>=◌, Connection, Call, Answer, stream_buffer}
use librascal.Connection.Valid.{Ends, Ends-map}
use librascal.Connection.Stream.{Sent, took, would_block, refused, chunk, write_loop}

pub List-cases {ℓ} : {A : Type ℓ} (l : List A) → (l ≡ []) ⊎ ((x : A) × (xs : List A) × (l ≡ x ∷ xs))
List-cases [] = inl refl
List-cases (x ∷ xs) = inr (x, xs, refl)

-- The bytes of a block that `send` takes.
abbrev pub taken : Sent → List ℕ → List ℕ
taken (took n) out = take n out
taken would_block out = []
taken (refused errno) out = []

abbrev pub IsOpen : Sent → Type 0
IsOpen (refused errno) = ⊥
IsOpen _ = Unit

-- The bytes that the system takes of a queue which is offered to it in blocks.
unfoldable pub transmitted : (ℕ → Sent) → ℕ → List ℕ → List ℕ
transmitted send zero xs = []
transmitted send (suc fuel) xs = elim (take chunk xs) [
  | [] ↦ []
  | y ∷ ys ↦ taken (send fuel) (y ∷ ys) ++ transmitted send fuel (drop chunk xs)
]

abbrev pub some_left : List ℕ → Bool
some_left [] = false
some_left (x ∷ xs) = true

-- A connection after a block was offered.
abbrev pub offered : Connection → List ℕ → List ℕ → Connection
offered c out got = record c { wr = remove c.wr (length out); sent = c.sent ++ got }

pub chunk_pos : 0 < chunk
unfolding chunk
chunk_pos = omega arith

pub take-nil : (n : ℕ) (ys : List ℕ) → 0 < n → take n ys ≡ [] → ys ≡ []
take-nil zero ys h e = absurd (omega arith)
take-nil (suc n) [] h e = refl
take-nil (suc n) (y ∷ ys) h e = absurd cc

some_left-take :
    (n : ℕ) (ys : List ℕ) (x : ℕ) (xs : List ℕ) → take n ys ≡ x ∷ xs → some_left ys ≡ true
some_left-take zero ys x xs e = absurd cc
some_left-take (suc n) [] x xs e = absurd cc
some_left-take (suc n) (y ∷ ys) x xs e = refl

-- A block less is left.
pub shorter_queue :
    (ys : List ℕ) (x : ℕ) (xs zs : List ℕ) (fuel : ℕ)
    → take chunk ys ≡ x ∷ xs
    → zs ≡ drop chunk ys
    → length ys < suc fuel
    → length zs < fuel
shorter_queue ys x xs zs fuel e q h =
    let t = ap length e in
    let u = ap length q in
    omega (arith, t, u, chunk_pos, length-drop chunk ys, length-take chunk ys)

pub transmitted_step :
    (send : ℕ → Sent) (fuel : ℕ) (ys : List ℕ) (x : ℕ) (xs : List ℕ)
    → take chunk ys ≡ x ∷ xs
    → transmitted send (suc fuel) ys
      ≡ taken (send fuel) (x ∷ xs) ++ transmitted send fuel (drop chunk ys)
unfolding transmitted
transmitted_step send fuel ys x xs e = rw (e, transmitted) refl

pub transmitted_stop :
    (send : ℕ → Sent) (fuel : ℕ) (ys : List ℕ)
    → take chunk ys ≡ []
    → transmitted send (suc fuel) ys ≡ []
unfolding transmitted
transmitted_stop send fuel ys e = rw (e, transmitted) refl

module _ (new : Connection → Allocator) (client : List Call → Answer) (send : ℕ → Sent) where
  pub write_stop :
      (fuel : ℕ) (s : Bool) (c : Connection)
      → peek c.wr chunk ≡ []
      → write_loop stream_buffer new client send (suc fuel) s c ≡ some (s, c)
  unfolding write_loop
  write_stop fuel s c e = rw (e, write_loop) refl

  pub write_step :
      (fuel : ℕ) (s : Bool) (c : Connection) (x : ℕ) (xs : List ℕ)
      → peek c.wr chunk ≡ x ∷ xs
      → (r : Sent) → send fuel ≡ r
      → IsOpen r
      → write_loop stream_buffer new client send (suc fuel) s c
        ≡ write_loop stream_buffer new client send fuel true (offered c (x ∷ xs) (taken r (x ∷ xs)))
  unfolding write_loop
  write_step fuel s c x xs e (took n) z o = rw (e, write_loop) (rw z refl)
  write_step fuel s c x xs e would_block z o =
      rw (e, write_loop)
        (rw z (
          ap
            (λ l.
              write_loop stream_buffer new client send fuel true
                (record c { wr = remove c.wr (length (x ∷ xs)); sent = l }))
            (sym (append-nil c.sent))))
  write_step fuel s c x xs e (refused n) z o = absurd o

  pub write_refused :
      (fuel : ℕ) (s : Bool) (c : Connection) (x : ℕ) (xs : List ℕ) (errno : ℕ)
      → peek c.wr chunk ≡ x ∷ xs
      → send fuel ≡ refused errno
      → write_loop stream_buffer new client send (suc fuel) s c
        ≡ (on_error stream_buffer new client errno c >>= (λ (d : Connection). some (s, d)))
  unfolding write_loop
  write_refused fuel s c x xs errno e z = rw (e, write_loop) (rw z refl)

  -- The queue is empty, and only the queue and the bytes sent have changed.
  pub record Drained (c : Connection) (fuel : ℕ) (s : Bool) (r : Bool × Connection) : Type 0 where
    pub empty : contents r.1.wr ≡ []
    pub valid : IsChain r.1.wr
    pub sends : r.1.sent ≡ c.sent ++ transmitted send fuel (contents c.wr)
    pub told : r.0 ≡ (if some_left (contents c.wr) then true else s)
    pub same : r.1 ≡ record c { wr = r.1.wr; sent = r.1.sent }

  pub write_loop-Drained :
      ((n : ℕ) → IsOpen (send n))
      → (fuel : ℕ) (s : Bool) (c : Connection) → IsChain c.wr
      → length (contents c.wr) < fuel
      → Ends (Drained c fuel s) (write_loop stream_buffer new client send fuel s c)
  write_loop-Drained open_ zero s c v h = absurd (omega arith)
  write_loop-Drained open_ (suc fuel) s c v h =
      let p = peek-take c.wr chunk in
      elim (List-cases (take chunk (contents c.wr))) [
        | inl e ↦
            let z = take-nil chunk (contents c.wr) chunk_pos e in
            subst (Ends (Drained c (suc fuel) s)) (sym (write_stop fuel s c (p ∙ e))) (record {
              empty = z;
              valid = v;
              sends =
                  sym (append-nil c.sent)
                  ∙ ap (λ l. c.sent ++ l) (sym (transmitted_stop send fuel (contents c.wr) e));
              told = ap (λ l. if some_left l then true else s) (sym z);
              same = refl;
            })
        | inr (x, xs, e) ↦
            let d = offered c (x ∷ xs) (taken (send fuel) (x ∷ xs)) in
            let r = remove-drop c.wr (length (x ∷ xs)) v in
            let q : contents d.wr ≡ drop chunk (contents c.wr) =
              r.1
              ∙ ap (λ (l : List ℕ). drop (length l) (contents c.wr)) (sym e)
              ∙ drop_taken chunk (contents c.wr) in
            let short : length (contents d.wr) < fuel =
              shorter_queue (contents c.wr) x xs (contents d.wr) fuel e q h in
            subst (Ends (Drained c (suc fuel) s))
              (sym (write_step fuel s c x xs (p ∙ e) (send fuel) refl (open_ fuel)))
              (Ends-map (Drained d fuel true) (Drained c (suc fuel) s) _
                (write_loop-Drained open_ fuel true d r.0 short)
                (λ (r : Bool × Connection) k. record {
                  empty = k.empty;
                  valid = k.valid;
                  sends =
                      k.sends
                      ∙ append_assoc c.sent (taken (send fuel) (x ∷ xs))
                          (transmitted send fuel (contents d.wr))
                      ∙ ap (λ l. c.sent ++ (taken (send fuel) (x ∷ xs) ++ transmitted send fuel l))
                          q
                      ∙ ap (λ l. c.sent ++ l)
                          (sym (transmitted_step send fuel (contents c.wr) x xs e));
                  told =
                      k.told
                      ∙ always (some_left (contents d.wr))
                      ∙ ap (λ t. if t then true else s)
                          (sym (some_left-take chunk (contents c.wr) x xs e));
                  same = k.same;
                }))
      ]
    where
      always : (t : Bool) → (if t then true else true) ≡ true
      always true = refl
      always false = refl
