-- ===== src/Connection/Handles/Served.antt =====
-- What a call by an id does, whether the id is known or not.
use librascal.Prelude.{
  ℕ, ◌≡◌, ◌≢◌, refl, ap, ◌∙◌, ◌⊎◌, inl, inr, Bool, Option, none, some, List, Option-cases,
}
use librascal.Chain.{Allocator}
use librascal.Object.{Object, incref}
use librascal.Stock as Stock
use librascal.Stock.{Stock}
use librascal.Connection.{Connection, Answer, Call, ◌>>=◌, write_to, read_from, reads_from}
use librascal.Connection.Handles.{
  Kind, buffer_of, Cell, is_connection, is_other, World, in_cell, heap_of, put_cell, Reply,
  invalid_handle, leave, with_connection, Request, writes, reads_bytes, reads_line, asks_rq_size,
  asks_sq_size, write_method, read_method, reads_method, size_method, rascal_write, rascal_read,
  rascal_reads, rascal_get_rq_size, rascal_get_sq_size, method_of, serve_request,
}
use librascal.Chain.{DataChain}
use librascal.Connection.Valid.{Ends, Ends-bind, Ends-result}
use librascal.Connection.Handles.Held.{
  IsHeld, buffer_of-IsBuffer, IsCell, IsWorld, leave-back, lookup-none, lookup_stray,
  with_connection-missing, with_connection-held,
}

-- There is no connection of this id.
abbrev pub IsStray : World → ℕ → Type 0
IsStray w rid =
    (Stock.get w.stock rid ≡ none)
    ⊎ ((at : ℕ) × (o : Object) × (Stock.get w.stock rid ≡ some at)
        × (w.cells at ≡ some (is_other o)))

module _ (new : Connection → Allocator) (client : List Call → Answer) (class_id : ℕ) where
  -- What the method of a request does, on a connection that it holds.
  method-Ends :
      (r : Request) (kind : Kind) (c : Connection)
      → IsHeld kind c.wr
      → Ends
          (λ (x : Reply × Connection). (x.1).object ≡ c.object)
          (method_of new client class_id r (buffer_of kind) c)
  unfolding write_method read_method reads_method size_method write_to read_from reads_from
  method-Ends (writes src) kind c v =
      let Same : Connection → Type 0 = λ d. d.object ≡ c.object in
      Ends-bind Same (λ (x : Reply × Connection). Same x.1) _ _
        (Ends-bind (λ (p : Bool × DataChain). IsHeld kind p.1) Same _ _
          ((buffer_of-IsBuffer kind).appends (new c) c.wr src v) (λ p u. refl))
        (λ d e. e)
  method-Ends (reads_bytes size) kind c v = refl
  method-Ends (reads_line size flags) kind c v = refl
  method-Ends asks_rq_size kind c v = refl
  method-Ends asks_sq_size kind c v = refl

  serve_as_method :
      (r : Request) (w : World) (rid : ℕ)
      → serve_request new client class_id r w rid
        ≡ with_connection class_id (method_of new client class_id r) w rid
  unfolding rascal_write rascal_read rascal_reads rascal_get_rq_size rascal_get_sq_size
  serve_as_method (writes src) w rid = refl
  serve_as_method (reads_bytes size) w rid = refl
  serve_as_method (reads_line size flags) w rid = refl
  serve_as_method asks_rq_size w rid = refl
  serve_as_method asks_sq_size w rid = refl

  -- The two ways that a call by an id goes.
  abbrev pub IsServed : Request → World → ℕ → Type 0
  IsServed r w rid =
      (IsStray w rid × (serve_request new client class_id r w rid ≡ some (invalid_handle, w)))
      ⊎ ((at : ℕ) × (kind : Kind) × (c : Connection) × (reply : Reply) × (d : Connection)
          × (Stock.get w.stock rid ≡ some at)
          × (w.cells at ≡ some (is_connection kind c))
          × (method_of new client class_id r (buffer_of kind)
                (record c { object = incref c.object })
              ≡ some (reply, d))
          × (serve_request new client class_id r w rid
              ≡ some (
                reply,
                record w {
                  cells =
                      put_cell w.cells at
                        (some (is_connection kind (record d { object = c.object })));
                },
              )))

  -- Of the five calls by an id, where every id is that of an object in memory, and a connection has
  -- valid buffers, fewer than 2^32 - 1 references, and one at least if it is cancelled: if there is no
  -- connection of this id, the call returns REC_INVALID_HANDLE and changes nothing. If there is one,
  -- the call returns what the connection's method returns, changes this connection as the method
  -- does, gives its reference back, and changes nothing else.
  pub serve_request_lem :
      (r : Request) (w : World) (rid : ℕ) → class_id ≢ 0 → IsWorld class_id w → IsServed r w rid
  serve_request_lem r w rid n world = elim (Option-cases (Stock.get w.stock rid)) [
    | inl e ↦ inl (
      inl e,
      serve_as_method r w rid
          ∙ with_connection-missing class_id _ w rid
              (lookup-none w.stock (heap_of w.cells) rid class_id e),
    )
    | inr (at, e) ↦ let (cell, f, i) = world rid at e in found at cell e f i
  ]
    where
      found :
          (at : ℕ) (cell : Cell)
          → Stock.get w.stock rid ≡ some at
          → w.cells at ≡ some cell
          → IsCell class_id cell
          → IsServed r w rid
      found at (is_other o) e f i = inl (
        inr (at, o, e, f),
        serve_as_method r w rid
            ∙ with_connection-missing class_id _ w rid
                (lookup_stray w.stock (heap_of w.cells) rid class_id at o e (ap in_cell f) n i),
      )
      found at (is_connection kind c) e f (t, h, p, rd, wr) =
          let held = record c { object = incref c.object } in
          let ((reply, d), q, k) = Ends-result _ _ (method-Ends r kind held wr) in
          inr (
            at,
            kind,
            c,
            reply,
            d,
            e,
            f,
            q,
            serve_as_method r w rid
                ∙ with_connection-held class_id (method_of new client class_id r) w rid at kind c e
                    f t
                ∙ ap
                    (λ (m : Option (Reply × Connection)). m >>= (λ (x : Reply × Connection).
                      leave class_id (method_of new client class_id r) w at kind x))
                    q
                ∙ leave-back class_id (method_of new client class_id r) w at kind c.object reply d k
                    h p,
          )
