-- ===== src/Tests/Requests.antt =====
-- Runs of the monitor, and its theorem there.
use librascal.Prelude.{
  List, Bool, ◌≡◌, refl, true, false, some, [], ◌∷◌, length, get_elem?, inr, arith,
}
use librascal.Util.Ftspec.{Ftspec}
use librascal.Dns.Cursor.{put_u16}
use librascal.Dns.Header.{new_header, flags, dump}
use librascal.Dns.Name.{put_name, put_labels, label_of, skip_dot}
use librascal.Requests.{Request, walk, new_request, flush, sent_to}
use librascal.Requests.Lookups.{
  Resolver, host, no_requests, start, give_up, dump_ask, getaddr_dump, reverse_name,
}
use librascal.Requests.Lookups.Balance.{
  IsBalanced, starts, expires, done, next, requests-IsBalanced,
}
use librascal.Requests.Queue.{Walked, walk-Within}

abbrev zero_time : Ftspec
zero_time = record { sec = 0; msec = 0 }

abbrev late : Ftspec
late = record { sec = 100; msec = 0 }

-- A request sent four times, and one sent once.
abbrev tired : Request
tired = record {
  self = 1;
  id = 1;
  rcount = 4;
  tstamp = zero_time;
  cancelled = false;
  listed = true;
}

abbrev fresh : Request
fresh = record tired { self = 2; id = 2; rcount = 1 }

abbrev waits : List (Request × Ftspec)
waits = (tired, late) ∷ (fresh, late) ∷ []

-- The user holds a reference to every request.
abbrev kept : Request → Bool
kept r = false

walk-Within_example :
    Walked kept 2500 4 waits (walk kept true ((0, 0) ∷ []) 2500 4 waits zero_time false)
walk-Within_example =
    walk-Within kept true ((0, 0) ∷ []) 2500 4 waits zero_time false
      (inr (omega arith), (inr (omega arith), tt))

-- One request for the host "a", to one nameserver.
abbrev one_asked : Resolver
one_asked = (start 1 7 zero_time ((5, 0) ∷ []) (host (97 ∷ [])) no_requests).1

abbrev asked_request : Request
asked_request = record {
  self = 1;
  id = 1;
  rcount = 1;
  tstamp = zero_time;
  cancelled = false;
  listed = true;
}

one_asked_queue : get_elem? one_asked.requests.queue 0 ≡ some asked_request
unfolding start new_request flush getaddr_dump dump put_u16 put_name put_labels label_of skip_dot
    sent_to new_header flags
one_asked_queue = refl

requests-IsBalanced_example : IsBalanced (give_up asked_request one_asked)
requests-IsBalanced_example = requests-IsBalanced (
    next (starts 1 7 zero_time ((5, 0) ∷ []) (host (97 ∷ [])) no_requests tt) (
      next (expires 0 asked_request one_asked one_asked_queue)
        (done (give_up asked_request one_asked))))

-- "4.3.2.1.in-addr.arpa"
reverse_name_run : length (reverse_name (1 ∷ 2 ∷ 3 ∷ 4 ∷ [])) ≡ 20
unfolding reverse_name
reverse_name_run = refl

-- The packet for the host "a".
dump_ask_run :
    dump_ask 1 (host (97 ∷ [])) (record { out = []; room = 512 })
    ≡ some (record {
      out = 0 ∷ 1 ∷ 1 ∷ 0 ∷ 0 ∷ 1 ∷ 0 ∷ 0 ∷ 0 ∷ 0 ∷ 0 ∷ 0 ∷ 1 ∷ 97 ∷ 0 ∷ 0 ∷ 1 ∷ 0 ∷ 1 ∷ [];
      room = 493;
    })
unfolding getaddr_dump dump put_u16 put_name put_labels label_of skip_dot new_header flags
dump_ask_run = refl
