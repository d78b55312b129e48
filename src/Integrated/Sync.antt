-- ===== src/Integrated/Sync.antt =====
-- SyncNPSState (internal/integrated/engines.go): the clients, tasks and hosts of NPS are brought in line
-- with the users and tunnels of the store.
use cosmo_nps.Base.{
  Bool, true, false, not, ◌&&◌, ◌||◌, Option, none, some, List, [], ◌∷◌, ◌++◌, Result, ok, err,
  if◌then◌else◌, pos, ◌*ℤ◌,
}
use cosmo_nps.Text.{Text, str, ◌==◌}
use cosmo_nps.Text.Decimal.{itoa}
use cosmo_nps.Dict.{Dict, lookup, insert}
use cosmo_nps.Core.Port.{format_port_ranges}
use cosmo_nps.Core.Model.{User, Tunnel, engine_nps}
use cosmo_nps.Store.Tunnels.{is_some}
use cosmo_nps.Control.Traffic.{int64, limit_bytes}
use cosmo_nps.Integrated.Library.{
  Flow, FileClient, FileTask, FileHost, Nps, zero_flow, zero_task, zero_host,
}
use cosmo_nps.Integrated.Prune.{managed_prefix, prune}

-- managedNPSRemark and managedNPSHostRemark
unfoldable pub managed_remark : Text → Text
managed_remark id = managed_prefix ++ id

unfoldable pub managed_host_remark : Text → Text → Text
managed_host_remark id domain = managed_prefix ++ (id ++ (str ":" ++ domain))

-- findNPSClient, findNPSTask, findNPSHost and findNPSHostByDomain in the entries of one Range
unfoldable pub find_client : Text → List FileClient → Option FileClient
find_client name [] = none
find_client name (c ∷ cs) =
    let rest = find_client name cs in
    if c.web_user_name == name || c.remark == name then some c else rest

unfoldable pub find_task : Text → List FileTask → Option FileTask
find_task remark [] = none
find_task remark (t ∷ ts) =
    let rest = find_task remark ts in if t.remark == remark then some t else rest

unfoldable pub find_host : Text → List FileHost → Option FileHost
find_host remark [] = none
find_host remark (h ∷ hs) =
    let rest = find_host remark hs in if h.remark == remark then some h else rest

unfoldable pub find_host_by_domain : Text → Text → Text → List FileHost → Option FileHost
find_host_by_domain domain scheme except [] = none
find_host_by_domain domain scheme except (h ∷ hs) =
    let rest = find_host_by_domain domain scheme except hs in
    if not (h.remark == except)
      && ((h.host == domain && h.location == str "/")
          && (h.scheme == scheme || h.scheme == str "all"))
    then some h
    else rest

-- the users that have a client
unfoldable pub has_client : User → Bool
has_client u = u.enabled && not (u.nps_verify_key == [])

unfoldable pub desired_users : List User → List Text
desired_users [] = []
desired_users (u ∷ us) = let rest = desired_users us in if has_client u then u.name ∷ rest else rest

abbrev pub flow_or_new : Option Flow → Flow
flow_or_new none = zero_flow
flow_or_new (some f) = f

-- the client with the fields of its user
unfoldable pub filled_client : User → FileClient → FileClient
filled_client u c = record c {
  verify_key = u.nps_verify_key;
  remark = u.name;
  status = true;
  web_user_name = u.name;
  port_pool = format_port_ranges u.port_pools;
  config_conn_allow = true;
  max_tunnel_num = u.max_ports;
  rate_limit = int64 (u.rate_limit *ℤ pos 128);
  flow = some (record (flow_or_new c.flow) { flow_limit = limit_bytes u });
}

unfoldable pub is_domain_tunnel : Tunnel → Bool
is_domain_tunnel t = t.mode == str "http" || t.mode == str "https"

-- the tunnels that the loop does not skip, for the clients that it has
unfoldable pub is_synced : Dict FileClient → Tunnel → Bool
is_synced clients t = (t.engine == engine_nps && t.enabled) && is_some (lookup t.user_name clients)

unfoldable pub desired_tasks : Dict FileClient → List Tunnel → List Text
desired_tasks clients [] = []
desired_tasks clients (t ∷ ts) =
    let rest = desired_tasks clients ts in
    if is_synced clients t && not (is_domain_tunnel t) then managed_remark t.id ∷ rest else rest

unfoldable pub host_remarks : Text → List Text → List Text → List Text
host_remarks id [] rest = rest
host_remarks id (d ∷ ds) rest = managed_host_remark id d ∷ host_remarks id ds rest

unfoldable pub desired_hosts : Dict FileClient → List Tunnel → List Text
desired_hosts clients [] = []
desired_hosts clients (t ∷ ts) =
    let rest = desired_hosts clients ts in
    if is_synced clients t && is_domain_tunnel t then host_remarks t.id t.domains rest else rest

unfoldable pub target_of : Tunnel → Text
target_of t = t.local_ip ++ (str ":" ++ itoa t.local_port)

unfoldable pub filled_host : Tunnel → FileClient → Text → FileHost → FileHost
filled_host t client domain h = record h {
  host = domain;
  target = target_of t;
  header_change = [];
  host_change = [];
  remark = managed_host_remark t.id domain;
  location = str "/";
  flow = some zero_flow;
  scheme = t.mode;
  client = client.id;
  is_close = false;
  auto_https = false;
}

unfoldable pub filled_task : Tunnel → FileClient → FileTask → FileTask
filled_task t client task = record task {
  port = t.remote_port;
  mode = t.mode;
  status = true;
  client = client.id;
  remark = managed_remark t.id;
  target = target_of t;
  flow = some zero_flow;
  password = if t.mode == str "secret" || t.mode == str "p2p" then t.id else task.password;
}

-- upsertNPSHost: the fields that were left empty
unfoldable pub completed_host : FileHost → FileHost
completed_host h = record h {
  location = if h.location == [] then str "/" else h.location;
  flow = some (flow_or_new h.flow);
}

-- fmt.Errorf("nps host %s/%s already exists in %s", ...)
unfoldable pub host_exists : Text → Text → Text → Text
host_exists mode domain remark =
    str "nps host " ++ (mode ++ (str "/" ++ (domain ++ (str " already exists in " ++ remark))))

-- the next step, unless there was an error
abbrev pub and_then :
    {L A B : Type 0} → Result Text A × L → (A → L → Result Text B × L) → Result Text B × L
and_then (err e, l) next = (err e, l)
and_then (ok a, l) next = next a l

module _ {L : Type 0} (nps : Nps L) where
  unfoldable pub sync_client : User → L → Result Text FileClient × L
  sync_client u l = elim (find_client u.name (nps.clients l)) [
    | none ↦ nps.new_client (filled_client u (nps.fresh_client u.nps_verify_key)) l
    | some c ↦ let new = filled_client u c in nps.new_client new (nps.mark_client new l)
  ]

  -- the first loop; `clients` is the map from the users' names
  unfoldable pub sync_clients : Dict FileClient → List User → L → Result Text (Dict FileClient) × L
  sync_clients clients [] l = (ok clients, l)
  sync_clients clients (u ∷ us) l =
      if has_client u
      then and_then (sync_client u l) (λ c l. sync_clients (insert u.name c clients) us l)
      else sync_clients clients us l

  -- behind the choice of the host: the test of the domain, and the write
  unfoldable pub place_host : Tunnel → Text → FileHost → L → Result Text (Unit {0}) × L
  place_host t domain h l = elim (find_host_by_domain domain t.mode h.remark (nps.hosts l)) [
    | some other ↦ (err (host_exists t.mode domain other.remark), l)
    | none ↦ (ok tt, nps.store_host (completed_host h) l)
  ]

  unfoldable pub sync_host : Tunnel → FileClient → Text → L → Result Text (Unit {0}) × L
  sync_host t client domain l = elim (find_host (managed_host_remark t.id domain) (nps.hosts l)) [
    | none ↦
        let (id, l1) = nps.next_host_id l in
        place_host t domain (filled_host t client domain (record zero_host { id = id })) l1
    | some h ↦
        let new = filled_host t client domain h in place_host t domain new (nps.mark_host new l)
  ]

  unfoldable pub sync_hosts : Tunnel → FileClient → List Text → L → Result Text (Unit {0}) × L
  sync_hosts t client [] l = (ok tt, l)
  sync_hosts t client (d ∷ ds) l = and_then (sync_host t client d l) (λ _. sync_hosts t client ds)

  -- the part for a running bridge: the task is started anew
  unfoldable pub restart_task : FileTask → L → Result Text (Unit {0}) × L
  restart_task task l =
      let l1 = if nps.is_running task.id l then nps.stop_server task.id l else l in
      and_then (nps.update_task (record task { status = true }) l1)
        (λ _. nps.add_task (record task { status = true }))

  unfoldable pub store_task : FileTask → L → Result Text (Unit {0}) × L
  store_task task l =
      and_then (nps.update_task task l)
        (λ _ l1. if nps.has_bridge l1 then restart_task task l1 else (ok tt, l1))

  unfoldable pub sync_task : Tunnel → FileClient → L → Result Text (Unit {0}) × L
  sync_task t client l = elim (find_task (managed_remark t.id) (nps.tasks l)) [
    | none ↦
        let (id, l1) = nps.next_task_id l in
        store_task (filled_task t client (record zero_task { id = id })) l1
    | some task ↦ let new = filled_task t client task in store_task new (nps.mark_task new l)
  ]

  -- one round of the second loop
  unfoldable pub sync_tunnel : Dict FileClient → Tunnel → L → Result Text (Unit {0}) × L
  sync_tunnel clients t l =
      if t.engine == engine_nps && t.enabled
      then elim (lookup t.user_name clients) [
        | none ↦ (ok tt, l)
        | some client ↦
            if is_domain_tunnel t then sync_hosts t client t.domains l else sync_task t client l
      ]
      else (ok tt, l)

  unfoldable pub sync_tunnels : Dict FileClient → List Tunnel → L → Result Text (Unit {0}) × L
  sync_tunnels clients [] l = (ok tt, l)
  sync_tunnels clients (t ∷ ts) l =
      and_then (sync_tunnel clients t l) (λ _. sync_tunnels clients ts)

  -- the clients that the first loop has, behind it
  unfoldable pub sync_from :
      List User → List Tunnel → Dict FileClient → L → Result Text (Unit {0}) × L
  sync_from users tunnels clients l = and_then (sync_tunnels clients tunnels l) (λ _ l1. (
    ok tt,
    prune nps (desired_users users) (desired_tasks clients tunnels) (desired_hosts clients tunnels)
        l1,
  ))

  unfoldable pub sync_nps_state : List User → List Tunnel → L → Result Text (Unit {0}) × L
  sync_nps_state users tunnels l =
      if nps.is_open l
      then and_then (sync_clients [] users l) (sync_from users tunnels)
      else (ok tt, l)
