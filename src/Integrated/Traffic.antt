-- ===== src/Integrated/Traffic.antt =====
-- CollectNPSTraffic (internal/integrated/engines.go): the totals of the managed tunnels and of the
-- clients, which go into a traffic report.
use cosmo_nps.Base.{Option, none, some, List, [], ◌∷◌, if◌then◌else◌, pos, ◌+ℤ◌}
use cosmo_nps.Text.{Text, ◌==◌}
use cosmo_nps.Text.Scan.{has_prefix, trim_prefix}
use cosmo_nps.Text.Split.{split}
use cosmo_nps.Dict.{Dict, lookup, insert, values}
use cosmo_nps.Control.Traffic.{Traffic, int64}
use cosmo_nps.Integrated.Library.{Flow, FileClient, FileTask, FileHost, Nps}
use cosmo_nps.Integrated.Prune.{managed_prefix, client_name}

abbrev pub traffic_or_new : Text → Option Traffic → Traffic
traffic_or_new id none = record { item = id; inlet_flow = pos 0; export_flow = pos 0 }
traffic_or_new id (some t) = t

-- the entry of a tunnel in tunnelsMap, with a flow added
unfoldable pub add_flow : Text → Flow → Dict Traffic → Dict Traffic
add_flow id flow totals =
    let old = traffic_or_new id (lookup id totals) in
    insert id
      (record old {
        inlet_flow = int64 (old.inlet_flow +ℤ flow.inlet_flow);
        export_flow = int64 (old.export_flow +ℤ flow.export_flow);
      })
      totals

abbrev pub add_to : Option Text → Option Flow → Dict Traffic → Dict Traffic
add_to (some id) (some flow) totals = add_flow id flow totals
add_to none flow totals = totals
add_to (some id) none totals = totals

-- the tunnel that a task's remark names
unfoldable pub task_tunnel : Text → Option Text
task_tunnel remark =
    if has_prefix remark managed_prefix then some (trim_prefix remark managed_prefix) else none

abbrev pub second : List Text → Option Text
second [] = none
second (_ ∷ []) = none
second (_ ∷ part ∷ _) = some part

-- the tunnel that a host's remark names: the part between the first two colons
unfoldable pub host_tunnel : Text → Option Text
host_tunnel remark = if has_prefix remark managed_prefix then second (split b':' remark) else none

unfoldable pub count_tasks : List FileTask → Dict Traffic → Dict Traffic
count_tasks [] totals = totals
count_tasks (t ∷ ts) totals = count_tasks ts (add_to (task_tunnel t.remark) t.flow totals)

unfoldable pub count_hosts : List FileHost → Dict Traffic → Dict Traffic
count_hosts [] totals = totals
count_hosts (h ∷ hs) totals = count_hosts hs (add_to (host_tunnel h.remark) h.flow totals)

abbrev pub cons_user : Text → Option Flow → List Traffic → List Traffic
cons_user name none rest = rest
cons_user name (some flow) rest =
    if name == []
    then rest
    else record { item = name; inlet_flow = flow.inlet_flow; export_flow = flow.export_flow } ∷ rest

unfoldable pub users_traffic : List FileClient → List Traffic
users_traffic [] = []
users_traffic (c ∷ cs) = cons_user (client_name c) c.flow (users_traffic cs)

-- the tunnels' and the users' traffic
unfoldable pub collect_nps_traffic : {L : Type 0} → Nps L → L → List Traffic × List Traffic
collect_nps_traffic nps l =
    if nps.is_open l
    then (
      values (count_hosts (nps.hosts l) (count_tasks (nps.tasks l) [])),
      users_traffic (nps.clients l),
    )
    else ([], [])
