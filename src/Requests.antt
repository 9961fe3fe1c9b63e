-- ===== src/Requests.antt =====
-- common/resolver/request.cc, common/resolver/monitor.cc and common/resolver/resolver.cc: the queue
-- of requests to nameservers, and the monitor that sends them again.
pub mod Lookups
pub mod Queue
use librascal.Prelude.{
  ℕ, zero, suc, ◌+◌, ◌-◌, ◌*◌, ◌/◌, ◌%◌, ◌^◌, Bool, true, false, ◌&&◌, ◌||◌, not, Option, none,
  some, List, [], ◌∷◌, ◌++◌, get_elem?, set, leb, ◌==◌, if◌then◌else◌,
}
use mathlib.Core.Option
use librascal.Srv.{isok}
use librascal.Util.Ftspec.{Ftspec, add_msec, before, after}

abbrev pub rec_unknown_error : ℕ
rec_unknown_error = 0xe000_0004

abbrev pub rec_unavailable : ℕ
rec_unavailable = 0xe000_0005

abbrev pub rec_no_nameservers : ℕ
rec_no_nameservers = 0xe000_000d

-- `self` stands for the object's address.
pub record Request : Type 0 where
  pub self : ℕ
  pub id : ℕ
  pub rcount : ℕ
  pub tstamp : Ftspec
  pub cancelled : Bool
  pub listed : Bool

-- The static members `queue` and `lastid`.
pub record Requests : Type 0 where
  pub queue : List Request
  pub lastid : ℕ

-- `do { ++lastid; } while (lastid == 0);`
abbrev pub next_id : ℕ → ℕ
next_id lastid = if (lastid + 1) % 2 ^ 16 == 0 then 1 else (lastid + 1) % 2 ^ 16

-- The constructor, at an address and a time.
unfoldable pub new_request : Requests → ℕ → Ftspec → Request × Requests
new_request q self now =
    let id = next_id q.lastid in
    let req : Request = record {
      self = self;
      id = id;
      rcount = 0;
      tstamp = now;
      cancelled = false;
      listed = true;
    } in
    (req, record { queue = q.queue ++ req ∷ []; lastid = id })

-- The loop of `unlist`.
unfoldable pub without : ℕ → List Request → List Request
without self [] = []
without self (item ∷ rest) =
    let kept = without self rest in if item.self == self then kept else item ∷ kept

-- `request::unlist`
unfoldable pub unlist : Request → Requests → Request × Requests
unlist req q =
    if req.listed
    then (record req { listed = false }, record q { queue = without req.self q.queue })
    else (req, q)

-- `request::cancel`, without the reference that it gives back.
unfoldable pub cancel_request : Request → Requests → Request × Requests
cancel_request req q = let out = unlist req q in (record (out.0) { cancelled = true }, out.1)

-- `request::pick`
unfoldable pub pick : ℕ → List Request → Option Request
pick id [] = none
pick id (item ∷ rest) = let later = pick id rest in if item.id == id then some item else later

-- A nameserver: its entry of `ns_rids`, and what `rascal_write` there returns.
unfoldable pub sent_to : List (ℕ × ℕ) → ℕ
sent_to [] = 0
sent_to (ns ∷ rest) = let n = sent_to rest in if isok ns.0 && isok ns.1 then suc n else n

-- `request::flush`: the code, whether it wakes the monitor, and the request; `dumped` says whether
-- there is a packet.
unfoldable pub flush : Bool → List (ℕ × ℕ) → Request → ℕ × Bool × Request
flush dumped servers req =
    if not dumped
    then (rec_unknown_error, false, req)
    else if sent_to servers == 0
    then (rec_no_nameservers, false, req)
    else (0, req.rcount == 0, record req { rcount = (req.rcount + 1) % 2 ^ 32 })

-- What `cycle_monitor` does with one request.
pub data Visit : Type 0 where
  passed : Visit
  timed_out : Request → Visit
  waiting : (resent : Bool) → Request → Ftspec → Visit

-- When the wait for a reply ends; `clock` is the time read for a sum of ~0 milliseconds.
abbrev pub ttl_of : Ftspec → ℕ → Request → Ftspec
ttl_of clock timeout item = add_msec clock item.tstamp (item.rcount * timeout % 2 ^ 32)

-- The body of the loop, at a time; the options are not negative.
unfoldable pub visit : Bool → List (ℕ × ℕ) → ℕ → ℕ → Ftspec → Request → Visit
visit dumped servers timeout repeat now item =
    let (rc, woken, sent) = flush dumped servers item in
    if item.cancelled
    then passed
    else if after now (ttl_of now timeout item)
    then (if leb repeat item.rcount
        then timed_out item
        else waiting true sent (ttl_of now timeout sent))
    else waiting false item (ttl_of now timeout item)

-- What a walk of `cycle_monitor` gives: `rc`, `until`, the requests as it leaves them, and those it
-- cancels.
pub record Walk : Type 0 where
  pub rc : Bool
  pub until : Ftspec
  pub left : List Request
  pub cancels : List Request

abbrev pub sooner : Ftspec → Ftspec → Ftspec
sooner until ttl = if (until.sec == 0) || before ttl until then ttl else until

-- The loop of `cycle_monitor` over the requests of the queue, each with the time at its turn.
-- `deleted` says of a request whether `cancel` gives its last reference back. Then the loop reads
-- `next` of an object that is gone, which is `none`.
unfoldable pub walk :
    (Request → Bool)
    → Bool
    → List (ℕ × ℕ)
    → ℕ
    → ℕ
    → List (Request × Ftspec)
    → Ftspec
    → Bool
    → Option Walk
walk deleted dumped servers timeout repeat [] until rc =
    some (record { rc = rc; until = until; left = []; cancels = [] })
walk deleted dumped servers timeout repeat ((item, now) ∷ rest) until rc =
    elim (visit dumped servers timeout repeat now item) [
      | passed ↦
          Option.map (λ (w : Walk). record w { left = item ∷ w.left })
            (walk deleted dumped servers timeout repeat rest until rc)
      | timed_out req ↦
          let behind = walk deleted dumped servers timeout repeat rest until true in
          if deleted req
          then none
          else Option.map (λ (w : Walk). record w { cancels = req ∷ w.cancels }) behind
      | waiting resent req ttl ↦
          Option.map (λ (w : Walk). record w { left = req ∷ w.left })
            (walk deleted dumped servers timeout repeat rest (sooner until ttl) true)
    ]

-- Events of a connection.
pub data Event : Type 0 where
  connected : Event
  closed : Event
  readable : Event
  writable : Event

-- What `ns_dispatcher` makes of `ns_rids[nsid]`: `conn` is the code it is given, `again` what
-- `rascal_connect_ex` returns.
unfoldable pub ns_rid : Event → ℕ → ℕ → ℕ → ℕ
ns_rid connected conn again old = if isok conn then conn else old
ns_rid closed conn again old =
    if isok conn then rec_unavailable else (if isok again then rec_unavailable else again)
ns_rid readable conn again old = old
ns_rid writable conn again old = old

-- What `ns_dispatcher` makes of `ns_rids`, for an nsid within it; `ns_addr` and what `on_read` does
-- with a packet are left out.
unfoldable pub ns_dispatcher : Event → ℕ → ℕ → ℕ → List ℕ → List ℕ
ns_dispatcher event conn again nsid rids = elim (get_elem? rids nsid) [
  | none ↦ rids
  | some old ↦ set rids nsid (ns_rid event conn again old)
]
