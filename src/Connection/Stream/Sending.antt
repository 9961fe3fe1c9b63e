-- ===== src/Connection/Stream/Sending.antt =====
-- `on_write` of a stream connection as a whole.
use librascal.Prelude.{
  ℕ, zero, suc, ◌≤◌, ◌<◌, ◌≡◌, refl, sym, ap, subst, ◌∙◌, Bool, true, false, Option, some, List, [],
  ◌∷◌, ◌++◌, append-nil, length, take, drop, take_all, inl, inr, if◌then◌else◌, if_false, arith,
}
use librascal.Chain.{Allocator}
use librascal.Chain.Valid.{IsChain, contents}
use librascal.Connection.{
  Connection, Call, Answer, Mode, cm_normal, cm_connect, stream_buffer, rop_write, rop_connect,
  ◌>>=◌, cancel, disp,
}
use librascal.Connection.Valid.{Ends-result}
use librascal.Connection.Stream.{
  Sent, took, would_block, refused, chunk, write_loop, introduce, report, report_write, on_write,
}
use librascal.Connection.Stream.Drain.{
  List-cases, taken, IsOpen, transmitted, transmitted_step, transmitted_stop, some_left, take-nil,
  chunk_pos, shorter_queue, Drained, write_loop-Drained,
}

module _ (new : Connection → Allocator) (client : List Call → Answer) where
  introduce_normal :
      (c : Connection) → c.mode ≡ cm_normal → introduce stream_buffer new client c ≡ some (true, c)
  unfolding introduce
  introduce_normal c e =
      ap
        (λ (m : Mode). elim m [
          | cm_connect ↦
              disp stream_buffer new client c.object.id rop_connect c
              >>= (λ (r : Bool × Connection). some (
                  if r.0 then (true, record (r.1) { mode = cm_normal }) else (false, cancel (r.1))))
          | _ ↦ some (true, c)
        ])
        e

  report_write_normal :
      (success : Bool) (c : Connection)
      → c.mode ≡ cm_normal
      → report_write stream_buffer new client success c
        ≡ report stream_buffer new client success c.object.id rop_write c
  unfolding report_write
  report_write_normal success c e = rw (introduce_normal c e, report_write) refl

  on_write_open :
      (send : ℕ → Sent) (fuel : ℕ) (c : Connection)
      → c.object.cancelled ≡ false
      → on_write stream_buffer new client send fuel c ≡ (
          write_loop stream_buffer new client send fuel false c
          >>= (λ (r : Bool × Connection). report_write stream_buffer new client (r.0) (r.1)))
  unfolding on_write
  on_write_open send fuel c e = if_false c.object.cancelled _ _ e

  -- At a valid queue, with no hard error of `send` and a fuel above the bytes held, `on_write` of a
  -- connection that is established and not cancelled comes to its report, with `success` exactly if
  -- bytes were held, at an empty queue: a block that `send` did not take whole is not kept. The system has what
  -- `send` took of the blocks, and no other member has changed.
  pub on_write-Drained :
      (send : ℕ → Sent) (fuel : ℕ) (c : Connection)
      → ((n : ℕ) → IsOpen (send n))
      → IsChain c.wr
      → length (contents c.wr) < fuel
      → c.object.cancelled ≡ false
      → c.mode ≡ cm_normal
      → (d : Connection) × (on_write stream_buffer new client send fuel c
          ≡ report stream_buffer new client (some_left (contents c.wr)) d.object.id rop_write d)
        × (contents d.wr ≡ [])
        × (d.sent ≡ c.sent ++ transmitted send fuel (contents c.wr))
        × (d ≡ record c { wr = d.wr; sent = d.sent })
  on_write-Drained send fuel c o v h e m =
      let ((told, d), q, k) =
        Ends-result (Drained new client send c fuel false) _
          (write_loop-Drained new client send o fuel false c v h) in
      let n : d.mode ≡ cm_normal = ap (λ (x : Connection). x.mode) k.same ∙ m in
      (
        d,
        on_write_open send fuel c e
            ∙ ap
                (λ (r : Option (Bool × Connection)). r >>= (λ (x : Bool × Connection).
                  report_write stream_buffer new client (x.0) (x.1)))
                q
            ∙ report_write_normal told d n
            ∙ ap (λ t. report stream_buffer new client t d.object.id rop_write d)
                (k.told ∙ plain (some_left (contents c.wr))),
        k.empty,
        k.sends,
        k.same,
      )
    where
      plain : (t : Bool) → (if t then true else false) ≡ t
      plain true = refl
      plain false = refl

pub take-drop : (n : ℕ) (xs : List ℕ) → take n xs ++ drop n xs ≡ xs
take-drop zero xs = refl
take-drop (suc n) [] = refl
take-drop (suc n) (x ∷ xs) = ap (λ l. x ∷ l) (take-drop n xs)

-- Whether `send` took all the bytes of a block of this length.
abbrev pub IsWhole : Sent → ℕ → Type 0
IsWhole (took m) n = n ≤ m
IsWhole _ n = ⊥

-- `send` takes each block whole in which a queue is offered to it.
unfoldable pub TakesWhole : (ℕ → Sent) → ℕ → List ℕ → Type 0
TakesWhole send zero xs = Unit
TakesWhole send (suc fuel) [] = Unit
TakesWhole send (suc fuel) (x ∷ xs) =
    IsWhole (send fuel) (length (take chunk (x ∷ xs))) × TakesWhole send fuel (drop chunk (x ∷ xs))

taken_whole : (r : Sent) (block : List ℕ) → IsWhole r (length block) → taken r block ≡ block
taken_whole (took m) block h = take_all m block h
taken_whole would_block block h = absurd h
taken_whole (refused errno) block h = absurd h

-- If `send` takes each block whole, all the bytes are sent, in order; if it would block every time,
-- none is.
transmitted_all :
    (send : ℕ → Sent) (fuel : ℕ) (xs : List ℕ)
    → TakesWhole send fuel xs
    → length xs < fuel
    → transmitted send fuel xs ≡ xs
unfolding TakesWhole
transmitted_all send zero xs s h = absurd (omega arith)
transmitted_all send (suc fuel) [] s h = transmitted_stop send fuel [] (take_none chunk)
  where
    take_none : (n : ℕ) → take {A = ℕ} n [] ≡ []
    take_none n = take_all {A = ℕ} n [] (omega arith)
transmitted_all send (suc fuel) (x ∷ xs) (w, s) h = elim (List-cases (take chunk (x ∷ xs))) [
  | inl e ↦ absurd (cons_nil (take-nil chunk (x ∷ xs) chunk_pos e))
  | inr (y, ys, e) ↦
      let whole : taken (send fuel) (y ∷ ys) ≡ take chunk (x ∷ xs) =
        ap (taken (send fuel)) (sym e) ∙ taken_whole (send fuel) (take chunk (x ∷ xs)) w in
      transmitted_step send fuel (x ∷ xs) y ys e
      ∙ ap (λ l. l ++ transmitted send fuel (drop chunk (x ∷ xs))) whole
      ∙ ap (λ l. take chunk (x ∷ xs) ++ l)
          (transmitted_all send fuel (drop chunk (x ∷ xs)) s
            (shorter_queue (x ∷ xs) y ys (drop chunk (x ∷ xs)) fuel e refl h))
      ∙ take-drop chunk (x ∷ xs)
]
  where
    cons_nil : x ∷ xs ≡ [] → ⊥
    cons_nil e = absurd cc

transmitted_none :
    (send : ℕ → Sent) (fuel : ℕ) (xs : List ℕ)
    → ((n : ℕ) → send n ≡ would_block)
    → transmitted send fuel xs ≡ []
unfolding transmitted
transmitted_none send zero xs s = refl
transmitted_none send (suc fuel) xs s = elim (List-cases (take chunk xs)) [
  | inl e ↦ transmitted_stop send fuel xs e
  | inr (y, ys, e) ↦
      transmitted_step send fuel xs y ys e
      ∙ ap (λ r. taken r (y ∷ ys) ++ transmitted send fuel (drop chunk xs)) (s fuel)
      ∙ transmitted_none send fuel (drop chunk xs) s
]

module _ (new : Connection → Allocator) (client : List Call → Answer) where
  -- At a valid queue, if no `send` has a hard error, if each block offered is taken whole, and at a
  -- fuel above the bytes held, `on_write` of a connection that is established and not cancelled
  -- comes to its report with an empty queue and all the bytes that were held sent, in order.
  pub on_write_whole :
      (send : ℕ → Sent) (fuel : ℕ) (c : Connection)
      → ((n : ℕ) → IsOpen (send n))
      → TakesWhole send fuel (contents c.wr)
      → IsChain c.wr
      → length (contents c.wr) < fuel
      → c.object.cancelled ≡ false
      → c.mode ≡ cm_normal
      → (d : Connection) × (on_write stream_buffer new client send fuel c
          ≡ report stream_buffer new client (some_left (contents c.wr)) d.object.id rop_write d)
        × (contents d.wr ≡ [])
        × (d.sent ≡ c.sent ++ contents c.wr)
  on_write_whole send fuel c o s v l e m =
      let (d, q, z, t, k) = on_write-Drained new client send fuel c o v l e m in
      (d, q, z, t ∙ ap (λ x. c.sent ++ x) (transmitted_all send fuel (contents c.wr) s l))

  -- If bytes are held and `send` would block for each block, `on_write` of an established connection
  -- sends none of them, empties the queue, and reports rop_write: the bytes are lost.
  pub on_write_blocked :
      (send : ℕ → Sent) (fuel : ℕ) (c : Connection)
      → ((n : ℕ) → send n ≡ would_block)
      → some_left (contents c.wr) ≡ true
      → IsChain c.wr
      → length (contents c.wr) < fuel
      → c.object.cancelled ≡ false
      → c.mode ≡ cm_normal
      → (d : Connection) × (on_write stream_buffer new client send fuel c
          ≡ report stream_buffer new client true d.object.id rop_write d)
        × (contents d.wr ≡ [])
        × (d.sent ≡ c.sent)
  on_write_blocked send fuel c s b v l e m =
      let (d, q, z, t, k) =
        on_write-Drained new client send fuel c (λ n. subst IsOpen (sym (s n)) tt) v l e m in
      (
        d,
        q ∙ ap (λ x. report stream_buffer new client x d.object.id rop_write d) b,
        z,
        t
            ∙ ap (λ x. c.sent ++ x) (transmitted_none send fuel (contents c.wr) s)
            ∙ append-nil c.sent,
      )
