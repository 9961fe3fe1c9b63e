-- ===== src/Connection/Handles.antt =====
-- The calls of the user by an id: bsd/rascal_read.cc, rascal_write.cc, rascal_get_rq_size.cc and
-- rascal_get_sq_size.cc, with `pobject` of common/object.h.
pub mod Held
pub mod Served
use librascal.Prelude.{ℕ, Bool, Option, none, some, List, [], length, ◌==◌, if◌then◌else◌}
use librascal.Chain.{Allocator}
use librascal.Chain.Line.{Line, no_data, measured, text}
use librascal.Object.{
  Object, Heap, Lookup, missing, held, fault, lookup, release, rec_invalid_handle,
}
use librascal.Stock.{Stock}
use librascal.Connection.{
  Connection, Answer, Call, Buffer, stream_buffer, ◌>>=◌, write_to, read_from, reads_from,
  get_rq_size, get_sq_size,
}
use librascal.Connection.Datagram.{packet_buffer}

abbrev pub rec_no_data : ℕ
rec_no_data = 0xe000_000c

-- Whether the buffers are chains or packet chains. The class `connection_dg` has packet chains, and
-- the class id of `connection`.
pub data Kind : Type 0 where
  of_stream of_datagram : Kind

abbrev pub buffer_of : Kind → Buffer
buffer_of of_stream = stream_buffer
buffer_of of_datagram = packet_buffer

-- The objects in memory, and their ids; those of other classes by their own members alone.
pub data Cell : Type 0 where
  is_connection : Kind → Connection → Cell
  is_other : Object → Cell

pub record World : Type 0 where
  pub stock : Stock ℕ
  pub cells : ℕ → Option Cell

abbrev pub object_of : Cell → Object
object_of (is_connection kind c) = c.object
object_of (is_other o) = o

abbrev pub in_cell : Option Cell → Option Object
in_cell none = none
in_cell (some cell) = some (object_of cell)

abbrev pub heap_of : (ℕ → Option Cell) → Heap
heap_of cells at = in_cell (cells at)

abbrev pub put_cell : (ℕ → Option Cell) → ℕ → Option Cell → ℕ → Option Cell
put_cell cells at cell addr = if addr == at then cell else cells addr

-- What is left of a connection, with the object that the release leaves.
abbrev pub cell_of : Kind → Connection → Option Object → Option Cell
cell_of kind c none = none
cell_of kind c (some o) = some (is_connection kind (record c { object = o }))

-- The code returned, the bytes stored in `to`, and what `*size` is set to.
pub record Reply : Type 0 where
  pub code : ℕ
  pub bytes : List ℕ
  pub size : Option ℕ

abbrev pub invalid_handle : Reply
invalid_handle = record { code = rec_invalid_handle; bytes = []; size = none }

-- `pobject<connection> tmp(rid)` around a method, and the destructor at the end; `class_id` is
-- `connection::get_class_ot()`. `none` is an access to an object that is not there.
module _ (class_id : ℕ) (method : Buffer → Connection → Option (Reply × Connection)) where
  -- The destructor, after the method.
  unfoldable pub leave : World → ℕ → Kind → Reply × Connection → Option (Reply × World)
  leave w at kind (reply, c) =
      let cells = put_cell w.cells at (some (is_connection kind c)) in
      elim (release w.stock (heap_of cells) at) [
        | none ↦ none
        | some (woken, stock, heap) ↦
            some (
              reply,
              record { stock = stock; cells = put_cell cells at (cell_of kind c (heap at)) },
            )
      ]

  -- The method of the object at an address, once it is held.
  unfoldable pub call_at : World → ℕ → Option Object → Option (Reply × World)
  call_at w at object = elim (w.cells at) [
    | some (is_connection kind c) ↦ elim object [
      | some o ↦
          method (buffer_of kind) (record c { object = o })
          >>= (λ (r : Reply × Connection). leave w at kind r)
      | none ↦ none
    ]
    | _ ↦ none
  ]

  unfoldable pub with_connection : World → ℕ → Option (Reply × World)
  with_connection w rid = elim (lookup w.stock (heap_of w.cells) rid class_id) [
    | missing ↦ some (invalid_handle, w)
    | fault ↦ none
    | held at heap ↦ call_at w at (heap at)
  ]

module _ (new : Connection → Allocator) (client : List Call → Answer) (class_id : ℕ) where
  unfoldable pub write_method : List ℕ → Buffer → Connection → Option (Reply × Connection)
  write_method src b c =
      write_to b new client src c
      >>= (λ (d : Connection). some (record { code = 0; bytes = []; size = none }, d))

  unfoldable pub read_method : ℕ → Buffer → Connection → Option (Reply × Connection)
  read_method size b c =
      let (out, d) = read_from b new client size c in
      some (record { code = 0; bytes = out; size = some (length out) }, d)

  -- What `connection::reads` returns and stores.
  abbrev pub line_reply : Line → Reply
  line_reply no_data = record { code = rec_no_data; bytes = []; size = none }
  line_reply (measured n) = record { code = 0; bytes = []; size = some n }
  line_reply (text out closed) = record { code = 0; bytes = out; size = some (length out) }

  -- `gets` is that of `datachain` for both kinds: the one that `packetchain` declares has no flags,
  -- so it does not override it.
  unfoldable pub reads_method : ℕ → ℕ → Buffer → Connection → Option (Reply × Connection)
  reads_method size flags b c =
      let (out, d) = reads_from b new client size flags c in some (line_reply out, d)

  unfoldable pub size_method : (Connection → ℕ) → Buffer → Connection → Option (Reply × Connection)
  size_method size_of b c = some (record { code = 0; bytes = []; size = some (size_of c) }, c)

  unfoldable pub rascal_write : List ℕ → World → ℕ → Option (Reply × World)
  rascal_write src = with_connection class_id (write_method src)

  unfoldable pub rascal_read : ℕ → World → ℕ → Option (Reply × World)
  rascal_read size = with_connection class_id (read_method size)

  unfoldable pub rascal_reads : ℕ → ℕ → World → ℕ → Option (Reply × World)
  rascal_reads size flags = with_connection class_id (reads_method size flags)

  unfoldable pub rascal_get_rq_size : World → ℕ → Option (Reply × World)
  rascal_get_rq_size = with_connection class_id (size_method get_rq_size)

  unfoldable pub rascal_get_sq_size : World → ℕ → Option (Reply × World)
  rascal_get_sq_size = with_connection class_id (size_method get_sq_size)

-- One of these calls.
pub data Request : Type 0 where
  writes : List ℕ → Request
  reads_bytes : ℕ → Request
  reads_line : ℕ → ℕ → Request
  asks_rq_size asks_sq_size : Request

module _ (new : Connection → Allocator) (client : List Call → Answer) (class_id : ℕ) where
  -- The method that it calls.
  abbrev pub method_of : Request → Buffer → Connection → Option (Reply × Connection)
  method_of (writes src) = write_method new client class_id src
  method_of (reads_bytes size) = read_method new client class_id size
  method_of (reads_line size flags) = reads_method new client class_id size flags
  method_of asks_rq_size = size_method new client class_id get_rq_size
  method_of asks_sq_size = size_method new client class_id get_sq_size

  abbrev pub serve_request : Request → World → ℕ → Option (Reply × World)
  serve_request (writes src) = rascal_write new client class_id src
  serve_request (reads_bytes size) = rascal_read new client class_id size
  serve_request (reads_line size flags) = rascal_reads new client class_id size flags
  serve_request asks_rq_size = rascal_get_rq_size new client class_id
  serve_request asks_sq_size = rascal_get_sq_size new client class_id
