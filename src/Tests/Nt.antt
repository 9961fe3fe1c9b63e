-- ===== src/Tests/Nt.antt =====
-- Runs of a connection of the Windows port, and its theorems there.
use librascal.Prelude.{ℕ, ◌≡◌, ◌≢◌, refl, true, false, Option, none, some, List, [], ◌∷◌, ◌⊎◌}
use librascal.Object.{Object}
use librascal.Socket.{Sock}
use librascal.Srv.{isok}
use librascal.Connection.{Call, Answer, read, write, cancels}
use librascal.Connection.Open.{tcp}
use librascal.Nt.{
  Host, System, cancel, new_host, release, read_from, new_reader, start_write, new_writer,
  spawn_reader, spawn_writer, write_to, on_read, on_write, welcome, on_connect, act, perform, disp,
}
use librascal.Nt.Worker.{
  Completion, complete, take_out, handle, oreader_event, owriter_event, oconnect_event,
}
use librascal.Nt.Worker.Steady.{IsSteady}
use librascal.Nt.Worker.Talks.{IsCalm}
use librascal.Nt.Worker.Run.{
  Happening, is_over, is_asked, happen, happens, outgoing, happens-IsSteady,
}
use librascal.Nt.Worker.Closure.{IsStubborn, cancel-endless}
use librascal.Nt.Start.{Attempt, opening, refused, rascal_connect_ex}
use librascal.Nt.Start.Codes.{Succeeds, rascal_connect_ex-Opens}

-- A system that starts all it is asked to.
abbrev able : System
able = record {
  new = λ h n. some (λ i. 0);
  starts = λ h. true;
  posts = λ h. true;
  so_error = λ h. some 0;
  is_dgram = λ h. false;
}

able_found : (h : Host) (n : ℕ) → able.new h n ≢ none
able_found h n = λ e. cc

abbrev object : Object
object = record { refc = 0; cancelled = false; id = 7; type = 1 }

abbrev peer : Sock
peer = record { addr = record { octets = 127 ∷ 0 ∷ 0 ∷ 1 ∷ []; size = 4 }; port = 80 }

-- A user who only reads.
abbrev reader : List Call → Answer
reader calls = record { accepts = true; acts = read 100 ∷ [] }

reader-IsCalm : IsCalm reader
reader-IsCalm calls code = (tt, tt)

abbrev well : List ℕ → Completion
well bytes = record { got = bytes; sender = peer; transferred = 0; failed = false; psec = 0 }

-- The connection is made, "hi" is written and then "ok" while the first write is in flight, "yes"
-- arrives, the writes are over.
abbrev history : List Happening
history =
    is_over 0 (well [])
    ∷ is_asked (write (104 ∷ 105 ∷ []))
    ∷ is_asked (write (111 ∷ 107 ∷ []))
    ∷ is_over 0 (well (121 ∷ 101 ∷ 115 ∷ []))
    ∷ is_over 0 (well [])
    ∷ is_over 1 (well [])
    ∷ []

happens-IsSteady_example :
    (d : Host) × (happens able (disp able reader 2) history (outgoing object peer) ≡ some d)
    × IsSteady 0 false d
happens-IsSteady_example =
    happens-IsSteady able reader 0 history object peer able_found reader-IsCalm refl

abbrev sent_of : Option Host → List ℕ
sent_of none = []
sent_of (some h) = h.sent

-- The four bytes are sent in order.
abbrev sent_run : List ℕ
sent_run = sent_of (happens able (disp able reader 2) history (outgoing object peer))

happens_run :
    sent_of (happens able (disp able reader 2) history (outgoing object peer))
    ≡ 104 ∷ 105 ∷ 111 ∷ 107 ∷ []
unfolding happens happen complete take_out handle oreader_event owriter_event oconnect_event
    new_host release read_from new_reader start_write new_writer spawn_reader spawn_writer write_to
    on_read on_write welcome on_connect act perform disp librascal.Chain.append
    librascal.Chain.append_loop librascal.Chain.extract librascal.Chain.remove librascal.Chain.peek
    librascal.Chain.make_room librascal.Chain.copy_in librascal.Chain.peek_items
    librascal.Chain.trim librascal.Chain.mark_dead
happens_run = refl

-- A user who cancels in any report.
abbrev canceller : List Call → Answer
canceller calls = record { accepts = true; acts = cancels ∷ [] }

canceller-IsStubborn : IsStubborn canceller
canceller-IsStubborn calls code = refl

cancel-endless_example : cancel able (disp able canceller 5) (outgoing object peer) ≡ none
unfolding new_host
cancel-endless_example =
    cancel-endless able canceller 5 (outgoing object peer) canceller-IsStubborn refl

abbrev attempt : Attempt
attempt = record {
  object = some object;
  errno = 0;
  opens = false;
  dialing = record {
    socket_error = none;
    has_thread = true;
    mode_error = none;
    event_error = none;
    connect_error = some 10061;
    post_error = none;
  };
  bind_error = none;
  listening = record {
    socket_error = none;
    reuse_error = none;
    bind_error = none;
    listen_error = none;
    acceptor_error = λ i. none;
  };
}

rascal_connect_ex-Opens_example :
    (Succeeds attempt.dialing peer
      × (rascal_connect_ex able (disp able reader 2) tcp attempt peer
          ≡ some (opening (outgoing object peer))))
    ⊎ ((code : ℕ) × (Succeeds attempt.dialing peer → ⊥)
        × (rascal_connect_ex able (disp able reader 2) tcp attempt peer ≡ some (refused code))
        × (isok code ≡ false))
rascal_connect_ex-Opens_example =
    rascal_connect_ex-Opens able (disp able reader 2) attempt object peer refl
