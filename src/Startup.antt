-- ===== src/Startup.antt =====
-- bsd/rascal_init.cc, nt/rascal_init.cc, `iocp::init` of nt/iocp.cc, `connect_ex_init` of
-- nt/connectex.cc, `rascal_initres` of common/resolver/resolver.cc and
-- common/resolver/rascal_set_nameserver.cc: how the library starts.
pub mod Again
use librascal.Prelude.{
  ℕ, suc, ◌+◌, ◌*◌, ◌/◌, ◌%◌, zero, Bool, true, false, not, Option, none, some, List, [], ◌∷◌,
  length, map, set, take, ltb, ◌==◌, if◌then◌else◌,
}
use librascal.Address.{Addr, rascal_aton}
use librascal.Options.{Setting, set_option, get_option, ro_thread_policy, rec_invalid_argument}
use librascal.Socket.{Sock, SockaddrIn, get}
use librascal.Srv.{isok}
use librascal.Requests.{connected, ns_dispatcher}
use librascal.Connection.{system_error, ◌>>=◌}
use librascal.Connection.Datagram.{rec_unknown_error}
use librascal.Connection.Open.{no_sock}

abbrev pub rec_unavailable : ℕ
rec_unavailable = 0xe000_0005

abbrev pub rec_iner_resolver : ℕ
rec_iner_resolver = 0xe000_0008

abbrev pub rec_iner_noworkers : ℕ
rec_iner_noworkers = 0xe000_0009

abbrev pub ro_dns_timeout : ℕ
ro_dns_timeout = 1

abbrev pub ro_dns_retry : ℕ
ro_dns_retry = 2

-- The options, `ns_rids` and `ns_addr`, and how many threads run the monitor, the workers and, on Windows, the
-- connector; whether there is a completion port.
pub record Library : Type 0 where
  pub options : List Setting
  pub ns_rids : List ℕ
  pub ns_addr : List Sock
  pub monitors : ℕ
  pub workers : ℕ
  pub connectors : ℕ
  pub has_port : Bool

-- `_res`: the parts that are used.
pub record Resolv : Type 0 where
  pub retrans : ℕ
  pub retry : ℕ
  pub servers : List SockaddrIn

-- What the system does at the start: whether the monitor's thread starts; `_res`, none where
-- `res_init` fails; what `rascal_connect_ex` returns for a nameserver; the error of a worker's
-- thread. On Windows: the errors of `getprotobyname`, whether the port is made, the number of
-- processors, which workers start, the error of the connector's thread, and the nameservers' texts,
-- none where GetNetworkParams fails.
pub record Machine : Type 0 where
  pub monitor_starts : Bool
  pub resolv : Option Resolv
  pub connect : Sock → ℕ
  pub thread_error : Option ℕ
  pub tcp_error : Option ℕ
  pub udp_error : Option ℕ
  pub makes_port : Bool
  pub processors : ℕ
  pub worker_starts : ℕ → Bool
  pub connector_error : Option ℕ
  pub dns_servers : Option (List (List ℕ))

-- `rascal_initres`
unfoldable pub rascal_initres : Machine → Library → Bool × Library
rascal_initres m lib =
    let lib₁ : Library = record lib { ns_rids = map (λ (r : ℕ). rec_unavailable) lib.ns_rids } in
    (
      m.monitor_starts,
      if m.monitor_starts then record lib₁ { monitors = suc lib.monitors } else lib₁,
    )

-- `rascal_set_nameserver`, which uses the first address. Where `rascal_connect_ex` makes the
-- datagram connection, that has reported rop_connect to `ns_dispatcher`, under the id returned.
unfoldable pub rascal_set_nameserver : (Sock → ℕ) → List Sock → Library → ℕ × Library
rascal_set_nameserver connect [] lib = (rec_invalid_argument, lib)
rascal_set_nameserver connect (peer ∷ rest) lib =
    let rc = connect peer in
    let told : Library = record lib {
      ns_rids = ns_dispatcher connected rc 0 0 lib.ns_rids;
      ns_addr = set lib.ns_addr 0 peer;
    } in
    (rc, if isok rc then told else lib)

-- The part of the first `rascal_init` behind `res_init`; none is a division by 0 or a write behind
-- `ns_addr`.
unfoldable pub use_resolv : Machine → Option Resolv → Library → Option (ℕ × Library)
use_resolv m none lib = some (0, lib)
use_resolv m (some res) lib =
    let timed = (set_option lib.options ro_dns_timeout (res.retrans * 1000 / res.retry)).2 in
    let retried = (set_option timed ro_dns_retry res.retry).2 in
    let (rc, lib₁) =
      rascal_set_nameserver m.connect (map (get no_sock) res.servers)
        (record lib { options = retried }) in
    let done : ℕ × Library = (if isok rc then 0 else rc, lib₁) in
    if res.retry == 0 then none else if ltb 64 (length res.servers) then none else some done

unfoldable pub start_resolver : Machine → Library → Option (ℕ × Library)
start_resolver m lib =
    let (starts, lib₁) = rascal_initres m lib in
    let used = use_resolv m m.resolv lib₁ in if starts then used else some (rec_iner_resolver, lib₁)

unfoldable pub start_worker : Option ℕ → Library → ℕ × Library
start_worker none lib = (0, record lib { workers = suc lib.workers })
start_worker (some errno) lib = (system_error errno, lib)

-- The end of `rascal_init`, unless the resolver has failed.
unfoldable pub start_workers : ℕ → Machine → ℕ × Library → ℕ × Library
start_workers policy m (rc, lib) =
    let started = start_worker m.thread_error lib in
    let worked : ℕ × Library = if policy % 4 == 0 then (0, lib) else started in
    if isok rc then worked else (rc, lib)

-- `rascal_init` of bsd/rascal_init.cc
unfoldable pub rascal_init : ℕ → Machine → Library → Option (ℕ × Library)
rascal_init policy m lib =
    let (rc, old, options) = set_option lib.options ro_thread_policy (policy % 4) in
    let lib₁ : Library = record lib { options = options } in
    let resolved = if policy / 8 % 2 == 0 then start_resolver m lib₁ else some (0, lib₁) in
    let going : Option (ℕ × Library) =
      resolved >>= (λ (r : ℕ × Library). some (start_workers policy m r)) in
    if isok rc then going else some (0, lib)

-- The loop of `iocp::init` over n processors from one on: how many workers were started.
unfoldable pub count_workers : (ℕ → Bool) → ℕ → ℕ → ℕ
count_workers starts zero idx = 0
count_workers starts (suc n) idx =
    let rest = count_workers starts n (suc idx) in if starts idx then suc rest else rest

-- `iocp::init` once the policy is known. Where the port is not made it returns false.
unfoldable pub make_port : ℕ → Machine → Library → ℕ × Library
make_port policy m lib =
    let lib₁ : Library = record lib { has_port = true } in
    let n = count_workers m.worker_starts (if policy % 4 == 1 then 1 else m.processors) 0 in
    let worked : ℕ × Library =
      (if n == 0 then rec_iner_noworkers else 0, record lib₁ { workers = lib.workers + n }) in
    if not m.makes_port then (0, lib) else if policy % 4 == 0 then (0, lib₁) else worked

unfoldable pub iocp_init : Machine → Library → ℕ × Library
iocp_init m lib = elim (get_option lib.options ro_thread_policy).1 [
  | none ↦ (rec_invalid_argument, lib)
  | some policy ↦
      let made = make_port policy m lib in
      let udp : ℕ × Library = elim m.udp_error [
        | some errno ↦ (system_error errno, lib)
        | none ↦ made
      ] in
      let tcp : ℕ × Library = elim m.tcp_error [
        | some errno ↦ (system_error errno, lib)
        | none ↦ udp
      ] in
      if lib.has_port then (rec_unknown_error, lib) else tcp
]

-- `connect_ex_init`
unfoldable pub connect_ex_init : Option ℕ → Library → ℕ × Library
connect_ex_init none lib = (0, record lib { connectors = suc lib.connectors })
connect_ex_init (some errno) lib = (system_error errno, lib)

-- An entry of `nslist`, which stays as `sock_t()` made it where the text is no address.
unfoldable pub name_server : List ℕ → Sock
name_server text =
    let (ok, addr, mask) = rascal_aton text ([], []) in
    if ok then record { addr = addr; port = 53 } else record no_sock { addr = addr }

-- `ns_initres_get`: what `rascal_set_nameserver` is called with, none where it is not.
unfoldable pub ns_initres_get : List (List ℕ) → Option (List Sock)
ns_initres_get [] = none
ns_initres_get (text ∷ texts) = some (map name_server (take 16 (text ∷ texts)))

-- `nt_initres`
abbrev pub nt_initres : Machine → Option (List Sock)
nt_initres m = m.dns_servers >>= ns_initres_get

-- What `nt_initres` makes of the library: nothing looks at the code of `rascal_set_nameserver`.
unfoldable pub nt_nameservers : Machine → Library → Library
nt_nameservers m lib = elim (nt_initres m) [
  | none ↦ lib
  | some servers ↦ (rascal_set_nameserver m.connect servers lib).1
]

-- The end of `rascal_init` of nt/rascal_init.cc.
unfoldable pub nt_resolver : Machine → Library → ℕ × Library
nt_resolver m lib =
    let (starts, lib₁) = rascal_initres m lib in
    if starts then (0, nt_nameservers m lib₁) else (rec_iner_resolver, lib₁)

unfoldable pub nt_connector : Machine → Library → ℕ × Library
nt_connector m lib =
    let (rc, lib₁) = connect_ex_init m.connector_error lib in
    let resolved = nt_resolver m lib₁ in if isok rc then resolved else (rc, lib₁)

-- `rascal_init` of nt/rascal_init.cc, which keeps the whole policy.
unfoldable pub nt_rascal_init : ℕ → Machine → Library → ℕ × Library
nt_rascal_init policy m lib =
    let (rc, old, options) = set_option lib.options ro_thread_policy policy in
    let (rc₁, lib₁) = iocp_init m (record lib { options = options }) in
    let started = nt_connector m lib₁ in
    if not (isok rc) then (0, lib) else if isok rc₁ then started else (rc₁, lib₁)
