-- ===== src/Tests/Service.antt =====
-- The start of a resolution, and the theorem on it there.
use librascal.Prelude.{ℕ, ◌≡◌, refl, some, [], ◌∷◌}
use librascal.Messages.{codes}
use librascal.Requests.{Requests}
use librascal.Service.{tcp, other, rec_invalid_argument, rascal_connect_service}
use librascal.Service.Started.{IsWhole, rascal_connect_service-IsWhole}

abbrev no_queue : Requests
no_queue = record { queue = []; lastid = 0 }

rascal_connect_service-IsWhole_example :
    (r : ℕ × Requests) × (rascal_connect_service 1 7
        (record { sec = 0; msec = 0 })
        ((5, 0) ∷ [])
        (codes "xmpp")
        tcp
        (codes "a.b")
        no_queue
      ≡ some r)
    × IsWhole 1 7 no_queue r
rascal_connect_service-IsWhole_example =
    rascal_connect_service-IsWhole 1 7 (record { sec = 0; msec = 0 }) ((5, 0) ∷ []) (codes "xmpp")
      tcp (codes "a.b") no_queue tt

other_protocol :
    rascal_connect_service 1 7
      (record { sec = 0; msec = 0 })
      []
      (codes "xmpp")
      other
      (codes "a.b")
      no_queue
    ≡ some (rec_invalid_argument, no_queue)
unfolding rascal_connect_service
other_protocol = refl
