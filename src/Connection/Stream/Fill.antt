-- ===== src/Connection/Stream/Fill.antt =====
-- What `on_read` keeps of the bytes that arrive.
use librascal.Prelude.{
  ℕ, ◌≡◌, ◌≢◌, refl, sym, ap, ◌∙◌, Bool, true, false, ◌||◌, Option, none, some, List, [], ◌∷◌, ◌++◌,
  append-nil, append_assoc, if_false, inl, inr,
}
use librascal.Chain.{DataChain, Allocator}
use librascal.Chain.Valid.{IsChain, contents}
use librascal.Chain.Append.{Appended-whole, append-Appended}
use librascal.Connection.{Connection, Call, Answer, stream_buffer, ◌>>=◌}
use librascal.Connection.Stream.{End, closed, dry, broken, receive, read_loop, report_read, on_read}

-- The bytes that arrive before a block of none.
unfoldable pub heard : List (List ℕ) → List ℕ
heard [] = []
heard ([] ∷ blocks) = []
heard ((x ∷ xs) ∷ blocks) = (x ∷ xs) ++ heard blocks

-- Whether some arrive, and whether the stream comes to its end.
unfoldable pub some_heard : List (List ℕ) → Bool
some_heard [] = false
some_heard ([] ∷ blocks) = false
some_heard ((x ∷ xs) ∷ blocks) = true

unfoldable pub shuts : List (List ℕ) → End → Bool
shuts [] closed = true
shuts [] _ = false
shuts ([] ∷ blocks) end = true
shuts ((x ∷ xs) ∷ blocks) end = shuts blocks end

abbrev pub IsCalm : End → Type 0
IsCalm (broken errno) = ⊥
IsCalm _ = Unit

module _ (new : Connection → Allocator) (client : List Call → Answer)
    (memory : (c : Connection) (n : ℕ) → new c n ≢ none) where
  receive_lem :
      (x : ℕ) (xs : List ℕ) (c : Connection)
      → IsChain c.rd
      → (rd : DataChain) × (receive stream_buffer new client (x ∷ xs) c
          ≡ some (record c { rd = rd }))
        × (contents rd ≡ contents c.rd ++ x ∷ xs)
        × IsChain rd
  unfolding receive
  receive_lem x xs c v =
      let a = append-Appended (new c) c.rd (x ∷ xs) v in
      elim a.outcome [
        | inl (d, u) ↦ (
          a.after,
          ap
              (λ (r : Option (Bool × DataChain)).
                r >>= (λ (p : Bool × DataChain). some (record c { rd = p.1 })))
              a.returns,
          Appended-whole a u,
          a.valid,
        )
        | inr (d, (n, e)) ↦ absurd (memory c n e)
      ]

  -- A connection to which bytes have been added.
  pub record Heard (blocks : List (List ℕ)) (c d : Connection) : Type 0 where
    pub bytes : contents d.rd ≡ contents c.rd ++ heard blocks
    pub valid : IsChain d.rd
    pub same : d ≡ record c { rd = d.rd }

  read_loop-Heard :
      (blocks : List (List ℕ)) (end : End) (success : Bool) (c : Connection)
      → IsCalm end
      → IsChain c.rd
      → (d : Connection) × (read_loop stream_buffer new client blocks end success c
          ≡ some (some_heard blocks || success, shuts blocks end, d))
        × Heard blocks c d
  unfolding read_loop heard some_heard shuts
  read_loop-Heard [] closed success c k v =
      (c, refl, record { bytes = sym (append-nil (contents c.rd)); valid = v; same = refl })
  read_loop-Heard [] dry success c k v =
      (c, refl, record { bytes = sym (append-nil (contents c.rd)); valid = v; same = refl })
  read_loop-Heard [] (broken errno) success c k v = absurd k
  read_loop-Heard ([] ∷ blocks) end success c k v =
      (c, refl, record { bytes = sym (append-nil (contents c.rd)); valid = v; same = refl })
  read_loop-Heard ((x ∷ xs) ∷ blocks) end success c k v =
      let (rd, q, b, w) = receive_lem x xs c v in
      let (d, p, h) = read_loop-Heard blocks end true (record c { rd = rd }) k w in
      (
        d,
        ap
              (λ (r : Option Connection).
                r >>= (λ (c' : Connection). read_loop stream_buffer new client blocks end true c'))
              q
            ∙ p
            ∙ ap (λ s. some (s, shuts blocks end, d)) (always (some_heard blocks)),
        record {
          bytes =
              h.bytes
              ∙ ap (λ l. l ++ heard blocks) b
              ∙ append_assoc (contents c.rd) (x ∷ xs) (heard blocks);
          valid = h.valid;
          same = h.same;
        },
      )
    where
      always : (s : Bool) → (s || true) ≡ true
      always true = refl
      always false = refl

  -- While memory is found and `recv` meets no hard error, `on_read` of a connection that is not
  -- cancelled comes to its reports with every byte that arrived before a block of none behind those
  -- that were held, in order, in a valid queue, and no other member changed; `success` says whether
  -- a byte arrived, `closed` whether the stream ended.
  pub on_read-Heard :
      (blocks : List (List ℕ)) (end : End) (c : Connection)
      → IsCalm end
      → IsChain c.rd
      → c.object.cancelled ≡ false
      → (d : Connection) × (on_read stream_buffer new client blocks end c
          ≡ report_read stream_buffer new client (some_heard blocks) (shuts blocks end) d)
        × Heard blocks c d
  unfolding on_read
  on_read-Heard blocks end c k v e =
      let (d, q, h) = read_loop-Heard blocks end false c k v in
      (
        d,
        if_false c.object.cancelled _ _ e
            ∙ ap
                (λ (o : Option (Bool × Bool × Connection)). o >>= (λ (r : Bool × Bool × Connection).
                  report_read stream_buffer new client (r.0) (r.1) (r.2)))
                q
            ∙ ap (λ s. report_read stream_buffer new client s (shuts blocks end) d)
                (plain (some_heard blocks)),
        h,
      )
    where
      plain : (s : Bool) → (s || false) ≡ s
      plain true = refl
      plain false = refl
