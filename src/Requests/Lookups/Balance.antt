-- ===== src/Requests/Lookups/Balance.antt =====
-- Requests accepted, requests in the queue and callbacks made.
pub mod Leaving
use librascal.Prelude.{
  ℕ, zero, suc, ◌+◌, ◌≡◌, ◌≢◌, refl, sym, ap, subst, ◌∙◌, Bool, true, false, Option, none, some,
  List, [], ◌∷◌, ◌++◌, length, length-append, get_elem?, All, All-append, ◌==◌, ==_iff, if_true,
  if_false, arith, Bool-cases, inl, inr,
}
use librascal.Srv.{isok}
use librascal.Util.Ftspec.{Ftspec}
use librascal.Dns.Cursor.{Cursor, Memory}
use librascal.Dns.Header.{Header, parse}
use librascal.Dns.Answers.{get_hosts, get_addrs}
use librascal.Requests.{
  Request, Requests, new_request, without, unlist, cancel_request, pick, flush, sent_to,
}
use librascal.Requests.Lookups.{
  Ask, host, address, Reply, addresses, names, Resolver, no_requests, start, answer, on_event,
  stored, has_packet, dump_ask, give_up, on_read, ◌>>=◌,
}
use librascal.Requests.Lookups.Balance.Leaving.{
  without-appended, IsQueue, without_keeps, without_drops, without-absent, get-All, without-IsQueue,
  length-without, pick-get, IsQueue-append, flush_keeps,
}

-- Every request accepted is in the queue or has been answered.
abbrev pub IsBalanced : Resolver → Type 0
IsBalanced s = IsQueue s.requests.queue × (length s.replies + length s.requests.queue ≡ s.started)

answer-IsBalanced :
    (i : ℕ) (req : Request) (reply : Reply) (s : Resolver)
    → IsBalanced s
    → get_elem? s.requests.queue i ≡ some req
    → IsBalanced (answer req reply s)
unfolding answer cancel_request unlist
answer-IsBalanced i req reply s (v, b) g =
    let listed =
      get-All (λ (x : Request). x.listed ≡ true) s.requests.queue i req (all_listed _ v) g in
    let q : Requests = record (s.requests) { queue = without req.self s.requests.queue } in
    subst
      (λ (r : Request × Requests).
        IsBalanced (record s { requests = r.1; replies = s.replies ++ reply ∷ [] }))
      (sym (if_true req.listed (record req { listed = false }, q) (req, s.requests) listed))
      (
        without-IsQueue req.self s.requests.queue v,
        counted (length s.replies) (length (without req.self s.requests.queue)) _ _ _ b
            (length-without s.requests.queue i req v g) (length-append s.replies (reply ∷ [])),
      )
  where
    all_listed : (q : List Request) → IsQueue q → All (λ (x : Request). x.listed ≡ true) q
    all_listed [] v = tt
    all_listed (x ∷ rest) (l, a, v) = (l, all_listed rest v)

    counted : (r w l n k : ℕ) → r + l ≡ n → suc w ≡ l → k ≡ r + 1 → k + w ≡ n
    counted r w l n k b e f = omega arith

start-IsBalanced :
    (self rid : ℕ) (now : Ftspec) (servers : List (ℕ × ℕ)) (what : Ask) (s : Resolver)
    → All (λ (r : Request). r.self ≢ self) s.requests.queue
    → IsBalanced s
    → IsBalanced (start self rid now servers what s).1
unfolding start new_request
start-IsBalanced self rid now servers what s a (v, b) =
    let req : Request = (new_request s.requests self now).0 in
    let dumped = has_packet (dump_ask req.id (stored what) (record { out = []; room = 512 })) in
    let out = flush dumped servers req in
    let (same, listed) = flush_keeps dumped servers req in
    elim (Bool-cases (isok out.0)) [
      | inl e ↦
          subst (λ (r : ℕ × Resolver). IsBalanced r.1) (sym (if_true (isok out.0) _ _ e))
            (
              IsQueue-append s.requests.queue (out.2) v listed
                  (subst (λ n. All (λ (r : Request). r.self ≢ n) s.requests.queue) (sym same) a),
              more (length s.replies) _ _ _ b (length-append s.requests.queue (out.2 ∷ [])),
            )
      | inr e ↦
          subst (λ (r : ℕ × Resolver). IsBalanced r.1) (sym (if_false (isok out.0) _ _ e))
            (
              without-IsQueue self _ (IsQueue-append s.requests.queue req v refl a),
              ap (λ l. length s.replies + length l)
                    (without-appended self s.requests.queue req a refl)
                  ∙ b,
            )
    ]
  where
    more : (r l n k : ℕ) → r + l ≡ n → k ≡ l + 1 → r + k ≡ n + 1
    more r l n k b e = omega arith

give_up-IsBalanced :
    (i : ℕ) (req : Request) (s : Resolver)
    → IsBalanced s
    → get_elem? s.requests.queue i ≡ some req
    → IsBalanced (give_up req s)
unfolding give_up
give_up-IsBalanced i req s b g = go (s.asks req.self)
  where
    go :
        (ask : Ask)
        → IsBalanced (elim ask [
          | host name ↦ answer req (addresses name []) s
          | address a ↦ answer req (names a 0 []) s
        ])
    go (host name) = answer-IsBalanced i req _ s b g
    go (address a) = answer-IsBalanced i req _ s b g

-- What holds of the result of a call, if it comes to one.
abbrev If : (Resolver → Type 0) → Option Resolver → Type 0
If P none = Unit
If P (some s) = P s

on_event-IsBalanced :
    (m : Memory) (fuel : ℕ) (h : Header) (c : Cursor) (i : ℕ) (req : Request) (s : Resolver)
    → IsBalanced s
    → get_elem? s.requests.queue i ≡ some req
    → If IsBalanced (on_event m fuel h c req s)
unfolding on_event
on_event-IsBalanced m fuel h c i req s b g = go (s.asks req.self) (get_hosts m fuel h c 16)
  where
    go :
        (ask : Ask) (hosts : Option (ℕ × List (ℕ × List ℕ)))
        → If IsBalanced (elim ask [
          | host name ↦ some (answer req (addresses name (get_addrs m h c 16)) s)
          | address a ↦
              hosts >>= (λ (r : ℕ × List (ℕ × List ℕ)). some (answer req (names a r.0 r.1) s))
        ])
    go (host name) hosts = answer-IsBalanced i req _ s b g
    go (address a) none = tt
    go (address a) (some r) = answer-IsBalanced i req _ s b g

on_read-IsBalanced :
    (packet : Option (Memory × ℕ)) (fuel : ℕ) (s : Resolver)
    → IsBalanced s
    → If IsBalanced (on_read packet fuel s)
unfolding on_read
on_read-IsBalanced none fuel s b = b
on_read-IsBalanced (some (m, size)) fuel s b = go (parse m (record { pos = 0; size = size }))
  where
    picked :
        (h : Header) (c : Cursor) (o : Option Request)
        → pick h.id s.requests.queue ≡ o
        → If IsBalanced (elim o [ none ↦ some s | some req ↦ on_event m fuel h c req s ])
    picked h c none e = b
    picked h c (some req) e =
        let (i, g) = pick-get h.id s.requests.queue req e in
        on_event-IsBalanced m fuel h c i req s b g

    go :
        (parsed : Option (Header × Cursor))
        → If IsBalanced (elim parsed [
          | none ↦ some s
          | some (h, c) ↦ elim (pick h.id s.requests.queue) [
            | none ↦ some s
            | some req ↦ on_event m fuel h c req s
          ]
        ])
    go none = b
    go (some (h, c)) = picked h c (pick h.id s.requests.queue) refl

-- What may happen: a call of `rascal_getaddr` or `rascal_gethost`, whose object does not stand where
-- one of the queue does; a packet that arrives; or the monitor gives a request of the queue up.
pub data Step : Resolver → Resolver → Type 0 where
  starts :
      (self rid : ℕ) (now : Ftspec) (servers : List (ℕ × ℕ)) (what : Ask) (s : Resolver)
      → All (λ (r : Request). r.self ≢ self) s.requests.queue
      → Step s (start self rid now servers what s).1
  reads :
      (packet : Option (Memory × ℕ)) (fuel : ℕ) (s t : Resolver)
      → on_read packet fuel s ≡ some t
      → Step s t
  expires :
      (i : ℕ) (req : Request) (s : Resolver)
      → get_elem? s.requests.queue i ≡ some req
      → Step s (give_up req s)

pub data Steps : Resolver → Resolver → Type 0 where
  done : (s : Resolver) → Steps s s
  next : {s t u : Resolver} → Step s t → Steps t u → Steps s u

Step-IsBalanced : {s t : Resolver} → Step s t → IsBalanced s → IsBalanced t
Step-IsBalanced (starts self rid now servers what s a) b =
    start-IsBalanced self rid now servers what s a b
Step-IsBalanced (reads packet fuel s t e) b =
    subst (If IsBalanced) e (on_read-IsBalanced packet fuel s b)
Step-IsBalanced (expires i req s g) b = give_up-IsBalanced i req s b g

Steps-IsBalanced : {s t : Resolver} → Steps s t → IsBalanced s → IsBalanced t
Steps-IsBalanced (done s) b = b
Steps-IsBalanced (next step rest) b = Steps-IsBalanced rest (Step-IsBalanced step b)

-- From a resolver without requests, after any calls of `rascal_getaddr` and `rascal_gethost`, any
-- packets and any requests that the monitor gives up: the callbacks made and the requests in the
-- queue are together exactly as many as the requests accepted, and the requests of the queue are
-- listed objects at different addresses.
pub requests-IsBalanced : {s : Resolver} → Steps no_requests s → IsBalanced s
requests-IsBalanced steps = Steps-IsBalanced steps (tt, refl)
