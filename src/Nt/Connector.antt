-- ===== src/Nt/Connector.antt =====
-- The thread of nt/connectex.cc that waits for connections to be established.
use librascal.Prelude.{ℕ, List, [], ◌∷◌}
use librascal.Nt.{Operation, connecting, Host, release}

-- What WSAEnumNetworkEvents gives for a connection: it fails, or FD_CONNECT is set with an error
-- code, or it is not.
pub data Events : Type 0 where
  no_status : Events
  connected : ℕ → Events
  waiting : Events

-- The connections of the list, those whose `oconnect` was posted to the port, each with its `psec`,
-- and those whose `oconnect` was deleted.
pub record Sorted : Type 0 where
  pub list : List Host
  pub posted : List (Host × ℕ)
  pub dropped : List Host

-- Without its first `oconnect`.
abbrev pub unconnected : List Operation → List Operation
unconnected [] = []
unconnected (connecting ∷ ops) = ops
unconnected (op ∷ ops) = op ∷ unconnected ops

unfoldable pub drop_connector : Host → Host
drop_connector h = release (record h { pending = unconnected h.pending })

-- The loop after a network event, with the list `nu` made so far. A message RM_CONNECTION is a round
-- of it, with the thread's list for `nu`.
unfoldable pub sweep : List (Host × Events) → List Host → Sorted
sweep [] nu = record { list = nu; posted = []; dropped = [] }
sweep ((h, no_status) ∷ rest) nu =
    let s = sweep rest nu in record s { dropped = drop_connector h ∷ s.dropped }
sweep ((h, connected psec) ∷ rest) nu =
    let s = sweep rest nu in record s { posted = (h, psec) ∷ s.posted }
sweep ((h, waiting) ∷ rest) nu = sweep rest (h ∷ nu)
