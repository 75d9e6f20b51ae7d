-- ===== src/Tests/Starts.antt =====
-- A start of the gateway, with the flags as they are by default.
use violet_gw.Prelude.{[], ◌∷◌, some, true}
use violet_gw.Datapath.Flags.{default_flags}
use violet_gw.Gateway.Services.{created_shm}
use violet_gw.Gateway.Startup
use violet_gw.Gateway.Startup.{Machine}
use violet_gw.Gateway.Startup.Laws.{Follows, init-Follows}
use violet_gw.Tests.{machine}
use violet_gw.Tests.Ports.{Queue, Table, rte, eal, eth, links, idle}

abbrev pub host : Machine Queue Table
host = record {
  rte = rte;
  eal = eal;
  eal_ok = true;
  pool_ok = true;
  eth = eth;
  devices = 0 ∷ 1 ∷ [];
  links = links;
  mac_of = λ port. 2 ∷ 0 ∷ 0 ∷ 0 ∷ 1 ∷ port ∷ [];
  max_ports = 32;
}

init-Follows_example :
    Follows machine host default_flags idle
      (some (created_shm machine))
      (Startup.init machine host default_flags idle (some (created_shm machine)))
init-Follows_example = init-Follows machine host default_flags idle (some (created_shm machine))
