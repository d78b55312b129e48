-- ===== src/Client.antt =====
-- cmd/tunnel-client/main.go: the client program asks the control server for the user's tunnels and starts
-- one NPS client for each node that has some.
pub mod Launcher
pub mod Once
use mathlib.Core.List.{reverse}
use cosmo_nps.Base.{
  ℕ, suc, Bool, true, false, not, ◌&&◌, ◌||◌, Option, none, some, List, [], ◌∷◌, ◌++◌, Result, ok,
  err, if◌then◌else◌, ℤ, ltb, nat_eq,
}
use cosmo_nps.Text.{Text, str, ◌==◌}
use cosmo_nps.Text.Scan.{trim_space}
use cosmo_nps.Text.Decimal.{itoa}
use cosmo_nps.Text.Order.{sort_by}
use cosmo_nps.Core.Domain.{member}
use cosmo_nps.Core.Model.{Tunnel, RuntimeConfig, engine_nps, with_defaults}
use cosmo_nps.Control.Push.{drop_slashes}
use cosmo_nps.Control.Bootstrap.{BootstrapNode, BootstrapResponse}

-- the NPS client of a node: the server's address and the key
pub record StartedClient : Type 0 where
  pub node_id : Text
  pub server : Text
  pub key : Text

-- What a run of the program keeps: `started` is the map startedNPS, in which a key is never removed,
-- `clients` are the clients that were started, the newest first, and `tunnels` what the window shows.
pub record ClientState : Type 0 where
  pub started : List Text
  pub clients : List StartedClient
  pub tunnels : List Tunnel

unfoldable pub count_nps_tunnels : List Tunnel → ℕ
count_nps_tunnels [] = 0
count_nps_tunnels (t ∷ ts) =
    let rest = count_nps_tunnels ts in
    if t.enabled && t.engine == engine_nps then suc rest else rest

-- `join_host_port` is net.JoinHostPort
unfoldable pub nps_server_addr : (Text → Text → Text) → RuntimeConfig → Text
nps_server_addr join_host_port given =
    let runtime = with_defaults given in
    join_host_port runtime.server_addr (itoa runtime.nps_server_port)

unfoldable pub endpoint : Text → Text → Text
endpoint base path = reverse (drop_slashes (reverse base)) ++ path

-- getenv with the value of the variable, which is empty where it is not set
unfoldable pub getenv_trimmed : Text → Text → Text
getenv_trimmed value fallback = let v = trim_space value in if v == [] then fallback else v

-- updateTunnels
unfoldable pub tunnels_of_nodes : List BootstrapNode → List Tunnel
tunnels_of_nodes [] = []
tunnels_of_nodes (n ∷ ns) = n.tunnels ++ tunnels_of_nodes ns

module _ (join_host_port : Text → Text → Text) where
  -- startNPSClient
  unfoldable pub start_nps_client : BootstrapNode → Text → ClientState → ClientState
  start_nps_client n key a = record a {
    started = n.id ∷ a.started;
    clients =
        record { node_id = n.id; server = nps_server_addr join_host_port n.runtime; key = key }
        ∷ a.clients;
  }

  -- one round of the loop of syncAndStart
  unfoldable pub start_node : Text → BootstrapNode → ClientState → ClientState
  start_node key n a =
      if ltb 0 (count_nps_tunnels n.tunnels) && (not (key == []) && not (member n.id a.started))
      then start_nps_client n key a
      else a

  unfoldable pub start_nodes : Text → List BootstrapNode → ClientState → ClientState
  start_nodes key [] a = a
  start_nodes key (n ∷ ns) a = start_nodes key ns (start_node key n a)

  -- syncAndStart: `fetched` is the answer of the control server, or the text of the error; the nodes
  -- are sorted by fetchBootstrap
  unfoldable pub sync_and_start :
      Result Text BootstrapResponse → ClientState → Result Text (Unit {0}) × ClientState
  sync_and_start (err e) a = (err e, a)
  sync_and_start (ok r) a =
      let nodes = sort_by (λ (n : BootstrapNode). n.id) r.nodes in
      (ok tt, start_nodes r.nps_verify_key nodes (record a { tunnels = tunnels_of_nodes nodes }))
