-- ===== src/Connection.antt =====
-- bsd/connection.h and the parts of bsd/connection.cc that every kind of connection shares: the
-- object, its buffers, and the calls of the user's dispatcher.
pub mod Handles
pub mod Valid
pub mod Buffers
pub mod Stream
pub mod Datagram
pub mod Open
pub mod Work
pub mod Protocol
use Prim.Native.Nat.{bit_or}
use librascal.Prelude.{
  ℕ, ◌+◌, ◌*◌, ◌^◌, Bool, true, false, ◌||◌, Option, none, some, List, [], ◌∷◌, ◌++◌, length, leb,
  if◌then◌else◌,
}
use librascal.Chain.{DataChain, Allocator, empty_chain, remove, has_data, get_size}
use librascal.Chain as Chain
use librascal.Chain.Line.{Line, gets}
use librascal.Object as Object
use librascal.Object.{Object, new_object}
use librascal.Socket.{Sock}
use librascal.Util.Ftspec.{Ftspec, sub, mseconds}

pub data Mode : Type 0 where
  cm_normal cm_connect cm_accept : Mode

-- `rop_types`
pub data Op : Type 0 where
  rop_accept rop_close rop_connect rop_read rop_write rop_listen : Op

-- A call of the dispatcher; its other arguments are the connection's `peer` and `context`.
pub record Call : Type 0 where
  pub code : ℕ
  pub op : Op

-- The members of `connection`. `calls` and `sent` are no members: the calls of the dispatcher so
-- far, the last one at the end, and the bytes that the system has taken.
pub record Connection : Type 0 where
  pub object : Object
  pub mode : Mode
  pub peer : Sock
  pub rd : DataChain
  pub wr : DataChain
  pub selected : Bool
  pub ts : Ftspec
  pub calls : List Call
  pub sent : List ℕ

-- What the user's dispatcher may do with the connection: `rascal_write`, `rascal_read`,
-- `rascal_reads` and `rascal_cancel`. A reference that such a call takes is given back by it.
pub data Act : Type 0 where
  write : List ℕ → Act
  read : ℕ → Act
  reads : ℕ → ℕ → Act
  cancels : Act

-- What it returns and does.
pub record Answer : Type 0 where
  pub accepts : Bool
  pub acts : List Act

-- `rd` and `wr` are chains or, behind the same methods, packet chains.
pub record Buffer : Type 0 where
  pub append : Allocator → DataChain → List ℕ → Option (Bool × DataChain)
  pub peek : DataChain → ℕ → List ℕ

abbrev pub stream_buffer : Buffer
stream_buffer = record { append = Chain.append; peek = Chain.peek }

abbrev pub rec_cancelled : ℕ
rec_cancelled = 0xe000_0010

abbrev pub rec_conn_timeout : ℕ
rec_conn_timeout = 0xe000_000f

-- `| REC_SYSERROR_MASK`
abbrev pub system_error : ℕ → ℕ
system_error errno = bit_or errno (2 ^ 31)

infixl 5 ◌>>=◌
abbrev pub ◌>>=◌ {ℓ κ} : {A : Type ℓ} {B : Type κ} → Option A → (A → Option B) → Option B
none >>= f = none
some a >>= f = f a

-- The constructor, with the system's time and the object that the base class made.
unfoldable pub new_connection : Object → Sock → Ftspec → Connection
new_connection object peer now = record {
  object = object;
  mode = cm_normal;
  peer = peer;
  rd = empty_chain;
  wr = empty_chain;
  selected = false;
  ts = now;
  calls = [];
  sent = [];
}

abbrev pub cancel : Connection → Connection
cancel c = record c { object = Object.cancel c.object }

-- `connection::need_to_write`
unfoldable pub need_to_write : Connection → Bool
need_to_write c = elim c.mode [ cm_connect ↦ true | _ ↦ has_data c.wr ]

-- `connection::get_sq_size` and `connection::get_rq_size`
abbrev pub get_sq_size : Connection → ℕ
get_sq_size c = get_size c.wr

abbrev pub get_rq_size : Connection → ℕ
get_rq_size c = get_size c.rd

-- In what follows `new` says what memory the allocations of an `append` get, and `client` what the
-- dispatcher answers to the last of the calls so far. `none` is a fault in a buffer.
module _ (b : Buffer) (new : Connection → Allocator) (client : List Call → Answer) where
  -- `connection::write`, which does not look at what `append` returns.
  unfoldable pub write_to : List ℕ → Connection → Option Connection
  write_to src c = do (done, wr) ← b.append (new c) c.wr src; some (record c { wr = wr })

  -- `connection::read`
  unfoldable pub read_from : ℕ → Connection → List ℕ × Connection
  read_from size c = let out = b.peek c.rd size in (out, record c { rd = remove c.rd (length out) })

  -- `connection::reads`
  unfoldable pub reads_from : ℕ → ℕ → Connection → Line × Connection
  reads_from size flags c = let out = gets c.rd size flags in (out.0, record c { rd = out.1 })

  unfoldable pub perform : List Act → Connection → Option Connection
  perform [] c = some c
  perform (write src ∷ acts) c = do c' ← write_to src c; perform acts c'
  perform (read size ∷ acts) c = perform acts (read_from size c).1
  perform (reads size flags ∷ acts) c = perform acts (reads_from size flags c).1
  perform (cancels ∷ acts) c = perform acts (cancel c)

  -- A call of `disp`: what it returns, and the connection after what it did.
  unfoldable pub disp : ℕ → Op → Connection → Option (Bool × Connection)
  disp code op c =
      let calls = c.calls ++ record { code = code; op = op } ∷ [] in
      let answer = client calls in
      do c' ← perform answer.acts (record c { calls = calls }); some (answer.accepts, c')

  -- `connection::on_error`
  unfoldable pub on_error : ℕ → Connection → Option Connection
  on_error errno c = do
    (kept, c') ←
        disp (system_error errno) (elim c.mode [ cm_connect ↦ rop_connect | _ ↦ rop_close ]) c
    some (cancel c')

  -- `connection::on_pulse`, at a time and with the limit of RO_CONN_TIMEOUT in seconds, which is
  -- not negative.
  unfoldable pub on_pulse : Ftspec → ℕ → Connection → Option Connection
  on_pulse now limit c =
      let expire : Option Connection =
        disp rec_conn_timeout rop_close c >>= (λ (r : Bool × Connection). some (cancel (r.1))) in
      elim c.mode [
        | cm_connect ↦ if leb (limit * 1000) (mseconds (sub now c.ts)) then expire else some c
        | _ ↦ some c
      ]
