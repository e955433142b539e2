-- ===== src/Controllers/Reads.antt =====
-- `collectClients` of internal/controller/authelia_controller.go only reads.
use heliop.Base.{◌≡◌}
use heliop.Base.Action.{read_twice}
use heliop.Api.{Authelia}
use heliop.Cluster.{ClusterClient}
use heliop.Secrets.{Crypto}
use heliop.Controllers.{World, read_clients}

module _ (c : Crypto) (cc : ClusterClient c.Source) where
  pub read_clients-stays : (a : Authelia) (u : World c cc) → (read_clients c cc a u).1 ≡ u
  unfolding read_clients
  read_clients-stays a u = read_twice _ _ u
