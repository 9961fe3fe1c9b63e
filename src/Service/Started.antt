-- ===== src/Service/Started.antt =====
-- The resolution of a service starts whole or not at all.
use librascal.Prelude.{
  ℕ, ◌≡◌, ◌≢◌, refl, sym, ap, subst, ◌⊎◌, inl, inr, false, some, List, [], ◌∷◌, ◌++◌, take, All,
  if_true, if_false, Bool-cases,
}
use librascal.Srv.{isok, dump_query}
use librascal.Util.Copy.{strlcpya}
use librascal.Util.Copy.Bounds.{joined, copies-take}
use librascal.Util.Ftspec.{Ftspec}
use librascal.Requests.{Request, Requests, new_request, cancel_request, unlist, flush}
use librascal.Requests.Lookups.{has_packet}
use librascal.Requests.Lookups.Balance.Leaving.{without-appended, flush_keeps}
use librascal.Service.{
  Protocol, tcp, udp, other, rec_invalid_argument, new_getsrv, resolve_service,
  rascal_connect_service,
}

-- An error, with the queue as it was; or the id of a request that stands behind the others.
abbrev pub IsWhole : ℕ → ℕ → Requests → ℕ × Requests → Type 0
IsWhole self rid s r =
    ((isok r.0 ≡ false) × ((r.1).queue ≡ s.queue))
    ⊎ ((r.0 ≡ rid) × ((sent : Request) × (sent.self ≡ self) × ((r.1).queue ≡ s.queue ++ sent ∷ [])))

new_getsrv-IsWhole :
    (self rid : ℕ) (now : Ftspec) (servers : List (ℕ × ℕ)) (hostname : List ℕ) (s : Requests)
    → All (λ (r : Request). r.self ≢ self) s.queue
    → IsWhole self rid s (new_getsrv self rid now servers hostname s)
unfolding new_getsrv new_request cancel_request unlist
new_getsrv-IsWhole self rid now servers hostname s a =
    let (req, q) = new_request s self now in
    let dumped =
      has_packet (dump_query req.id (take 255 hostname) (record { out = []; room = 512 })) in
    let out = flush dumped servers req in
    elim (Bool-cases (isok out.0)) [
      | inl e ↦
          subst (IsWhole self rid s) (sym (if_true (isok out.0) _ _ e))
            (inr (refl, (out.2, (flush_keeps dumped servers req).0, refl)))
      | inr e ↦
          subst (IsWhole self rid s) (sym (if_false (isok out.0) _ _ e))
            (inl (e, without-appended self s.queue req a refl))
    ]

resolve_service-IsWhole :
    (self rid : ℕ) (now : Ftspec) (servers : List (ℕ × ℕ)) (args : List (List ℕ)) (s : Requests)
    → All (λ (r : Request). r.self ≢ self) s.queue
    → (r : ℕ × Requests) × (resolve_service self rid now servers (strlcpya args 256) s ≡ some r)
      × IsWhole self rid s r
unfolding resolve_service
resolve_service-IsWhole self rid now servers args s a = (
  new_getsrv self rid now servers (take 255 (joined args)) s,
  ap (λ o. resolve_service self rid now servers o s) (copies-take [] args 255).1,
  new_getsrv-IsWhole self rid now servers (take 255 (joined args)) s a,
)

-- `rascal_connect_service`, whose object does not stand where one of the queue does, writes within
-- its buffer, and it returns an error and leaves the queue as it was, or returns the id of a new
-- request that stands behind the others of the queue.
pub rascal_connect_service-IsWhole :
    (self rid : ℕ) (now : Ftspec) (servers : List (ℕ × ℕ)) (name : List ℕ) (proto : Protocol)
    (domain : List ℕ) (s : Requests)
    → All (λ (r : Request). r.self ≢ self) s.queue
    → (r : ℕ × Requests) × (rascal_connect_service self rid now servers name proto domain s
        ≡ some r)
      × IsWhole self rid s r
unfolding rascal_connect_service
rascal_connect_service-IsWhole self rid now servers name other domain s a =
    ((rec_invalid_argument, s), refl, inl (refl, refl))
rascal_connect_service-IsWhole self rid now servers name tcp domain s a =
    resolve_service-IsWhole self rid now servers _ s a
rascal_connect_service-IsWhole self rid now servers name udp domain s a =
    resolve_service-IsWhole self rid now servers _ s a
