-- ===== src/Tests/Connection.antt =====
-- Runs of a stream connection, and its theorems there.
use librascal.Prelude.{
  ◌<◌, ◌^◌, ◌||◌, inl, ℕ, suc, ◌≡◌, ◌≢◌, refl, true, false, none, some, List, [], ◌∷◌, ◌++◌, get_or,
  arith,
}
use librascal.Chain.{DataChain, Allocator}
use librascal.Chain.Item.{DataChainItem}
use librascal.Chain.Valid.{IsChain, contents, empty_chain-IsChain}
use librascal.Object.{Object}
use librascal.Util.Ftspec.{Ftspec}
use librascal.Connection.{
  Connection, Call, Answer, rop_write, stream_buffer, new_connection, read, write, on_pulse,
}
use librascal.Connection.Open.{success, connect, no_sock}
use librascal.Connection.Valid.{Ends}
use librascal.Stock.{Stock, no_id}
use librascal.Connection.Handles.{World, of_stream, is_connection, reads_bytes}
use librascal.Connection.Handles.Held.{IsWorld}
use librascal.Connection.Handles.Served.{IsServed, serve_request_lem}
use librascal.Connection.Stream.{
  took, would_block, closed, dry, chunk, on_write, on_read, report, report_read,
}
use librascal.Connection.Stream.Drain.{some_left}
use librascal.Connection.Stream.Sending.{TakesWhole, on_write_whole, on_write_blocked}
use librascal.Connection.Stream.Fill.{Heard, some_heard, shuts, on_read-Heard}
use librascal.Connection.Work.{Ready, passed, left, work_one}
use librascal.Connection.Work.Balance.{
  IsOutcome, stream_handlers, work_one-IsOutcome, failed_select_strands,
}
use librascal.Connection.Protocol.{IsPolite}
use librascal.Connection.Protocol.Run.{run, pulse, arrives, has_room, run-IsPolite}

abbrev plenty : Connection → Allocator
plenty c n = some (λ i. 0)

-- A user who reads what has arrived and answers "ok".
abbrev polite : List Call → Answer
polite calls = record { accepts = true; acts = read 100 ∷ write (111 ∷ 107 ∷ []) ∷ [] }

plenty_found : (c : Connection) (n : ℕ) → plenty c n ≢ none
plenty_found c n = λ e. cc

abbrev hello : DataChainItem
hello = record { used = 2; dead = 0; bytes = λ i. get_or (104 ∷ 105 ∷ []) i 0 }

abbrev queue : DataChain
queue = record { items = hello ∷ []; tail = some 0 }

queue-IsChain : IsChain queue
queue-IsChain = record { tail_last = refl; marks = (omega arith, tt) }

abbrev zero_time : Ftspec
zero_time = record { sec = 0; msec = 0 }

abbrev object : Object
object = record { refc = 1; cancelled = false; id = 7; type = 1 }

abbrev sample : Connection
sample = record (new_connection object no_sock zero_time) { rd = queue; wr = queue }

queue-TakesWhole : TakesWhole (λ n. took 2) 3 (contents queue)
unfolding TakesWhole chunk
queue-TakesWhole = (omega arith, tt)

on_write_whole_example :
    (d : Connection) × (on_write stream_buffer plenty polite (λ n. took 2) 3 sample
      ≡ report stream_buffer plenty polite (some_left (contents sample.wr)) d.object.id rop_write d)
    × (contents d.wr ≡ [])
    × (d.sent ≡ sample.sent ++ contents sample.wr)
unfolding new_connection
on_write_whole_example =
    on_write_whole plenty polite (λ n. took 2) 3 sample (λ n. tt) queue-TakesWhole queue-IsChain
      (omega arith) refl refl

on_write_blocked_example :
    (d : Connection) × (on_write stream_buffer plenty polite (λ n. would_block) 3 sample
      ≡ report stream_buffer plenty polite true d.object.id rop_write d)
    × (contents d.wr ≡ [])
    × (d.sent ≡ sample.sent)
unfolding new_connection
on_write_blocked_example =
    on_write_blocked plenty polite (λ n. would_block) 3 sample (λ n. refl) refl queue-IsChain
      (omega arith) refl refl

on_read-Heard_example :
    (d : Connection) × (on_read stream_buffer plenty polite ((33 ∷ []) ∷ (34 ∷ []) ∷ []) dry sample
      ≡ report_read stream_buffer plenty polite
          (some_heard ((33 ∷ []) ∷ (34 ∷ []) ∷ []))
          (shuts ((33 ∷ []) ∷ (34 ∷ []) ∷ []) dry)
          d)
    × Heard plenty polite plenty_found ((33 ∷ []) ∷ (34 ∷ []) ∷ []) sample d
unfolding new_connection
on_read-Heard_example =
    on_read-Heard plenty polite plenty_found ((33 ∷ []) ∷ (34 ∷ []) ∷ []) dry sample tt
      queue-IsChain refl

run-IsPolite_example : Ends IsPolite (
    run plenty polite
      (pulse zero_time 5 ∷ has_room (λ n. took 1) ∷ arrives ((33 ∷ []) ∷ []) closed ∷ [])
      (connect success zero_time no_sock (new_connection object no_sock zero_time)).1)
run-IsPolite_example =
    run-IsPolite plenty polite object no_sock no_sock zero_time zero_time
      (pulse zero_time 5 ∷ has_room (λ n. took 1) ∷ arrives ((33 ∷ []) ∷ []) closed ∷ [])

abbrev started : Connection
started = (connect success zero_time no_sock (new_connection object no_sock zero_time)).1

started-IsPolite : IsPolite started
unfolding connect new_connection
started-IsPolite = record {
  rd_valid = empty_chain-IsChain;
  wr_valid = empty_chain-IsChain;
  order = inl (refl, tt);
}

abbrev ready : Ready
ready = record { failed = none; readable = true; writable = true }

started_refc : suc started.object.refc < 2 ^ 32
unfolding connect new_connection
started_refc = omega arith

started_free : (started.object.cancelled || started.selected) ≡ false
unfolding connect new_connection
started_free = refl

work_one-IsOutcome_example :
    Ends (IsOutcome plenty polite ((33 ∷ []) ∷ []) closed (λ n. took 1) (some 2) started) (
      work_one
        (on_pulse stream_buffer plenty polite zero_time 30)
        (stream_handlers plenty polite ((33 ∷ []) ∷ []) closed (λ n. took 1))
        (some 2)
        ready
        started)
work_one-IsOutcome_example =
    work_one-IsOutcome plenty polite ((33 ∷ []) ∷ []) closed (λ n. took 1) zero_time 30 (some 2)
      ready started started_refc started-IsPolite

failed_select_strands_example :
    (d : Connection) × (work_one
        (on_pulse stream_buffer plenty polite zero_time 30)
        (stream_handlers plenty polite [] dry (λ n. took 1))
        none
        ready
        started
      ≡ some (left d))
    × (d.object.refc ≡ suc started.object.refc)
    × (work_one some (stream_handlers plenty polite [] dry (λ n. took 1)) (some 1) ready d
        ≡ some (passed d))
failed_select_strands_example =
    failed_select_strands plenty polite [] dry (λ n. took 1) zero_time 30 ready started some
      (stream_handlers plenty polite [] dry (λ n. took 1)) (some 1) ready started_refc
      started-IsPolite started_free

-- The sample at address 0, with the id 0x3_0001 in a table of two slots.
abbrev table : Stock ℕ
table = record {
  slots = record { id = no_id; body = 0 } ∷ record { id = 0x3_0001; body = 0 } ∷ [];
  free = 0 ∷ [];
  idx_seed = 0x3_0000;
  rnd_seed = 0;
  pagesize = 2;
}

abbrev world : World
world = record { stock = table; cells = λ at. some (is_connection of_stream sample) }

world-IsWorld : IsWorld 1 world
unfolding new_connection
world-IsWorld rid at e = (
  is_connection of_stream sample,
  refl,
  (refl, omega arith, (λ p. omega arith), queue-IsChain, queue-IsChain),
)

serve_request_lem_example : IsServed plenty polite 1 (reads_bytes 2) world 0x3_0001
serve_request_lem_example =
    serve_request_lem plenty polite 1 (reads_bytes 2) world 0x3_0001 (λ e. absurd cc) world-IsWorld
