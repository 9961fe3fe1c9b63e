-- ===== src/Connection/Handles/Held.antt =====
-- What `pobject` does around a method: the object is found and held, and released at the end.
use librascal.Prelude.{
  ℕ, ◌+◌, ◌^◌, ◌<◌, ◌≡◌, ◌≢◌, refl, ap, ap₂, ◌∙◌, inl, inr, Bool, true, false, ◌&&◌, not, Option,
  none, some, ◌==◌, ==_iff, if◌then◌else◌, if_true, if_false, Bool-cases, arith,
}
use librascal.Chain.{DataChain}
use librascal.Chain.Valid.{IsChain}
use librascal.Object.{
  Object, incref, less_one, kills, signals, decref, Heap, put, missing, held, lookup, release,
}
use librascal.Stock as Stock
use librascal.Stock.{Stock}
use librascal.Connection.{Buffer, Connection, ◌>>=◌}
use librascal.Connection.Buffers.{IsPackets, stream-IsBuffer, packet-IsBuffer}
use librascal.Connection.Valid.{IsBuffer}
use librascal.Connection.Handles.{
  Kind, of_stream, of_datagram, buffer_of, Cell, is_connection, is_other, World, in_cell, cell_of,
  heap_of, put_cell, Reply, invalid_handle, leave, call_at, with_connection,
}

-- A valid buffer of a kind.
abbrev pub IsHeld : Kind → DataChain → Type 0
IsHeld of_stream = IsChain
IsHeld of_datagram = IsPackets

pub buffer_of-IsBuffer : (kind : Kind) → IsBuffer (buffer_of kind) (IsHeld kind)
buffer_of-IsBuffer of_stream = stream-IsBuffer
buffer_of-IsBuffer of_datagram = packet-IsBuffer

-- A connection in use: its buffers are valid, its count does not wrap, and it is referenced if it is
-- cancelled, so that it is not about to be deleted.
abbrev pub IsCell : ℕ → Cell → Type 0
IsCell class_id (is_connection kind c) =
    (c.object.type ≡ class_id)
    × (c.object.refc + 1 < 2 ^ 32)
    × (c.object.cancelled ≡ true → 0 < c.object.refc)
    × IsHeld kind c.rd
    × IsHeld kind c.wr
IsCell class_id (is_other o) = o.type ≢ class_id

-- Every id is that of an object.
abbrev pub IsWorld : ℕ → World → Type 0
IsWorld class_id w =
    (rid at : ℕ)
    → Stock.get w.stock rid ≡ some at
    → (cell : Cell) × (w.cells at ≡ some cell) × IsCell class_id cell

taken_back : (o : Object) → o.refc + 1 < 2 ^ 32 → less_one (incref o) ≡ o
taken_back o h = ap (λ n. record o { refc = n }) (omega (arith, h))

not_killed :
    (o : Object)
    → o.refc + 1 < 2 ^ 32
    → (o.cancelled ≡ true → 0 < o.refc)
    → kills (incref o) ≡ false
not_killed o h p = elim (Bool-cases o.cancelled) [
  | inl e ↦
      let z : ((less_one (incref o)).refc == 0) ≡ false = ground (arith, h, p e) in
      ap₂ (λ a b. a && b) z e
  | inr e ↦ ground (arith, e)
]

put_cell-again :
    (cells : ℕ → Option Cell) (at : ℕ) (x y : Option Cell)
    → put_cell (put_cell cells at x) at y ≡ put_cell cells at y
put_cell-again cells at x y = λ i addr. same (addr == at) addr i
  where
    same :
        (t : Bool) (addr : ℕ)
        → (if t then y else (if t then x else cells addr)) ≡ (if t then y else cells addr)
    same true addr = refl
    same false addr = refl

release_one :
    (s : Stock ℕ) (heap : Heap) (at : ℕ) (o : Object)
    → heap at ≡ some (incref o)
    → o.refc + 1 < 2 ^ 32
    → (o.cancelled ≡ true → 0 < o.refc)
    → release s heap at ≡ some (signals (incref o), s, put heap at (some o))
unfolding release decref
release_one s heap at o e h p =
    let k = not_killed o h p in
    rw (e, release)
      (ap₂ (λ (x : Stock ℕ) (y : Option Object). Option.some (signals (incref o), x, put heap at y))
        (if_false (kills (incref o)) _ _ k)
        (if_false (kills (incref o)) _ _ k ∙ ap (λ (x : Object). Option.some x) (taken_back o h)))

-- The reference is given back.
pub leave-back :
    (class_id : ℕ) (method : Buffer → Connection → Option (Reply × Connection)) (w : World) (at : ℕ)
    (kind : Kind) (o : Object) (reply : Reply) (d : Connection)
    → d.object ≡ incref o
    → o.refc + 1 < 2 ^ 32
    → (o.cancelled ≡ true → 0 < o.refc)
    → leave class_id method w at kind (reply, d)
      ≡ some (
        reply,
        record w {
          cells = put_cell w.cells at (some (is_connection kind (record d { object = o })));
        },
      )
unfolding leave
leave-back class_id method w at kind o reply d e h p =
    let cells = put_cell w.cells at (some (is_connection kind d)) in
    let q : (at == at) ≡ true = (==_iff at at).1 refl in
    let there : heap_of cells at ≡ some (incref o) =
      ap in_cell (if_true (at == at) _ _ q) ∙ ap (λ (x : Object). Option.some x) e in
    let heap = put (heap_of cells) at (some o) in
    let left : heap at ≡ some o = if_true (at == at) _ _ q in
    rw (release_one w.stock (heap_of cells) at o there h p, leave)
      (ap (λ (f : ℕ → Option Cell). Option.some (reply, record w { cells = f }))
        (ap (λ (x : Option Object). put_cell cells at (cell_of kind d x)) left
          ∙ put_cell-again w.cells at (some (is_connection kind d)) (cell_of kind d (some o))))

pub lookup-none :
    (s : Stock ℕ) (heap : Heap) (id type : ℕ)
    → Stock.get s id ≡ none
    → lookup s heap id type ≡ missing
unfolding lookup
lookup-none s heap id type e = rw (e, lookup) refl

pub lookup_stray :
    (s : Stock ℕ) (heap : Heap) (id type at : ℕ) (o : Object)
    → Stock.get s id ≡ some at
    → heap at ≡ some o
    → type ≢ 0
    → o.type ≢ type
    → lookup s heap id type ≡ missing
unfolding lookup
lookup_stray s heap id type at o e h p q =
    rw (e, lookup)
      (rw h (if_true (not (type == 0) && not (o.type == type)) _ _ (ground (arith, p, q))))

lookup_found :
    (s : Stock ℕ) (heap : Heap) (id type at : ℕ) (o : Object)
    → Stock.get s id ≡ some at
    → heap at ≡ some o
    → o.type ≡ type
    → lookup s heap id type ≡ held at (put heap at (some (incref o)))
unfolding lookup
lookup_found s heap id type at o e h q =
    rw (e, lookup)
      (rw h (if_false (not (type == 0) && not (o.type == type)) _ _ (ground (arith, q))))

module _ (class_id : ℕ) (method : Buffer → Connection → Option (Reply × Connection)) (w : World)
    (rid : ℕ) where
  pub with_connection-missing :
      lookup w.stock (heap_of w.cells) rid class_id ≡ missing
      → with_connection class_id method w rid ≡ some (invalid_handle, w)
  unfolding with_connection
  with_connection-missing e = rw (e, with_connection) refl

  pub with_connection-held :
      (at : ℕ) (kind : Kind) (c : Connection)
      → Stock.get w.stock rid ≡ some at
      → w.cells at ≡ some (is_connection kind c)
      → c.object.type ≡ class_id
      → with_connection class_id method w rid ≡ (
          method (buffer_of kind) (record c { object = incref c.object })
          >>= (λ (r : Reply × Connection). leave class_id method w at kind r))
  unfolding with_connection call_at
  with_connection-held at kind c g e t =
      let heap = put (heap_of w.cells) at (some (incref c.object)) in
      let q : heap at ≡ some (incref c.object) = if_true (at == at) _ _ ((==_iff at at).1 refl) in
      rw
        (
          lookup_found w.stock (heap_of w.cells) rid class_id at c.object g (ap in_cell e) t,
          with_connection,
        )
        (ap (call_at class_id method w at) q ∙ rw (e, call_at) refl)
