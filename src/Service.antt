-- ===== src/Service.antt =====
-- common/rascal_connect_service.cc and the constructor of `getsrv` in
-- common/resolver/rascal_getsrv.cc: how the resolution of a service starts.
pub mod Started
use Prim.Native.String.{String}
use librascal.Prelude.{ℕ, Option, none, some, List, [], ◌∷◌, ◌++◌, take, if◌then◌else◌}
use librascal.Messages.{codes}
use librascal.Srv.{isok, dump_query}
use librascal.Util.Copy.{strlcpya}
use librascal.Util.Ftspec.{Ftspec}
use librascal.Requests.{Requests, new_request, cancel_request, flush}
use librascal.Requests.Lookups.{has_packet}

-- The argument `proto`; NULL is "tcp".
pub data Protocol : Type 0 where
  tcp udp other : Protocol

abbrev pub rec_invalid_argument : ℕ
rec_invalid_argument = 0xe000_0003

-- The constructor of `getsrv`: the code or id, where the object stands at `self` with the id `rid`,
-- and the queue.
unfoldable pub new_getsrv : ℕ → ℕ → Ftspec → List (ℕ × ℕ) → List ℕ → Requests → ℕ × Requests
new_getsrv self rid now servers hostname s =
    let (req, q) = new_request s self now in
    let packet = dump_query req.id (take 255 hostname) (record { out = []; room = 512 }) in
    let (rc, woken, sent) = flush (has_packet packet) servers req in
    if isok rc
    then (rid, record q { queue = s.queue ++ sent ∷ [] })
    else (rc, (cancel_request req q).1)

-- What `strlcpya` leaves in `hname`; none is a write before it.
abbrev pub service_name : List ℕ → String → List ℕ → Option (List ℕ)
service_name name proto domain =
    strlcpya (codes "_" ∷ name ∷ codes "._" ∷ codes proto ∷ codes "." ∷ domain ∷ []) 256

-- The end of `rascal_connect_service`.
unfoldable pub resolve_service :
    ℕ → ℕ → Ftspec → List (ℕ × ℕ) → Option (List ℕ) → Requests → Option (ℕ × Requests)
resolve_service self rid now servers none s = none
resolve_service self rid now servers (some hname) s = some (new_getsrv self rid now servers hname s)

unfoldable pub rascal_connect_service :
    ℕ → ℕ → Ftspec → List (ℕ × ℕ) → List ℕ → Protocol → List ℕ → Requests → Option (ℕ × Requests)
rascal_connect_service self rid now servers name other domain s = some (rec_invalid_argument, s)
rascal_connect_service self rid now servers name tcp domain s =
    resolve_service self rid now servers (service_name name "tcp" domain) s
rascal_connect_service self rid now servers name udp domain s =
    resolve_service self rid now servers (service_name name "udp" domain) s
