-- ===== src/Tests/Startup.antt =====
-- A library that starts, and its theorem there.
use librascal.Prelude.{◌≡◌, refl, true, false, none, some, [], ◌∷◌}
use librascal.Options.{start_options, set_option, get_option, ro_thread_policy}
use librascal.Connection.Open.{no_sock}
use librascal.Requests.{ns_dispatcher, ns_rid}
use librascal.Socket.{Sock}
use librascal.Startup.{
  Library, Machine, rascal_initres, rascal_set_nameserver, use_resolv, start_resolver,
  start_workers, rascal_init, rec_unavailable,
}
use librascal.Startup.Again.{rascal_init-again}

-- A system that names no nameserver.
abbrev machine : Machine
machine = record {
  monitor_starts = true;
  resolv = some (record { retrans = 5; retry = 2; servers = [] });
  connect = λ s. 7;
  thread_error = none;
  tcp_error = none;
  udp_error = none;
  makes_port = true;
  processors = 1;
  worker_starts = λ i. true;
  connector_error = none;
  dns_servers = none;
}

abbrev fresh : Library
fresh = record {
  options = start_options 1;
  ns_rids = 0 ∷ [];
  ns_addr = no_sock ∷ [];
  monitors = 0;
  workers = 0;
  connectors = 0;
  has_port = false;
}

abbrev server : Sock
server = record no_sock { port = 53 }

-- A nameserver's connection that is made.
set_nameserver_run :
    rascal_set_nameserver (λ s. 7) (server ∷ []) fresh
    ≡ (7, record fresh { ns_rids = 7 ∷ []; ns_addr = server ∷ [] })
unfolding rascal_set_nameserver ns_dispatcher ns_rid
set_nameserver_run = refl

-- What a start leaves that fails for want of a nameserver.
abbrev failed : Library
failed = record {
  options =
      record { value = 0; readonly = false }
      ∷ record { value = 2500; readonly = false }
      ∷ record { value = 2; readonly = false }
      ∷ record { value = 1; readonly = true }
      ∷ record { value = 5; readonly = false }
      ∷ [];
  ns_rids = rec_unavailable ∷ [];
  ns_addr = no_sock ∷ [];
  monitors = 1;
  workers = 0;
  connectors = 0;
  has_port = false;
}

fails : rascal_init 1 machine fresh ≡ some (0xe000_0003, failed)
unfolding rascal_init start_resolver rascal_initres use_resolv rascal_set_nameserver start_workers
    set_option
fails = refl

rascal_init-again_example :
    (get_option failed.options ro_thread_policy ≡ (0, some 1))
    × (rascal_init 2 machine failed ≡ some (0, failed))
rascal_init-again_example =
    rascal_init-again 1 2 machine machine fresh failed 0xe000_0003
      (record { value = 1; readonly = false }) refl refl fails
