-- ===== src/Tests/Embedded.antt =====
-- The synchronisation of NPS on a stand-in for its library: three lists, with nothing running.
use cosmo_nps.Text.Order.{insert_by, sort_by, text_leb}
use cosmo_nps.Store.Users.{all_users}
use cosmo_nps.Store.Tunnels.{list_tunnels}
use cosmo_nps.Control.Usage.{filter_tunnels_by_node, or_default, owns_one, users_for_tunnels}
use cosmo_nps.Control.Nodes.{admit_agent, agent_bundle, bundle_for_node}
use cosmo_nps.Text.Split.{join}
use cosmo_nps.Text.Scan.{
  has_prefix, is_space, lower_byte, strip_prefix, to_lower, trim_left, trim_prefix,
}
use cosmo_nps.Text.Decimal.{decimal, digits, itoa}
use cosmo_nps.Integrated.Prune.{
  client_name, is_left_over, is_unwanted, prune, prune_clients, prune_each, prune_hosts,
  prune_tasks, remove_client, remove_task,
}
use cosmo_nps.Core.Port.{format_port_ranges, range_string}
use cosmo_nps.Core.Domain.{member}
use cosmo_nps.Control.Traffic.{int64, limit_bytes}
use cosmo_nps.Dict.{insert, lookup}
use mathlib.Core.List.Memᴰ
use cosmo_nps.Base.{
  some, ◌≡◌, ◌≢◌, refl, sym, ap, ◌∙◌, Bool, true, false, not, none, List, [], ◌∷◌, Memᴰ, map, ok, ℤ,
  pos, eqb_ℤ, keep, mem-keep, arith, subst, ◌*ℤ◌,
}
use cosmo_nps.Text.{Text, str, ◌==◌}
use cosmo_nps.Text.Scan.{trim_space}
use cosmo_nps.Core.Model.{User, Node}
use cosmo_nps.Store.Base.{Store, normalize_id}
use cosmo_nps.Store.Nodes.{get_node}
use cosmo_nps.Agent.{sync_once, apply_bundle}
use cosmo_nps.Agent.Delivered.{served, IsInLine, sync_once-IsInLine}
use cosmo_nps.Integrated.Library.{FileClient, FileTask, FileHost, Nps, zero_task}
use cosmo_nps.Integrated.Pruned.{Mark, task_mark, host_mark, client_mark, Deletes, Shrinks-refl}
use cosmo_nps.Integrated.Sync.{
  sync_nps_state, completed_host, desired_hosts, desired_tasks, desired_users, filled_client,
  filled_host, filled_task, find_client, find_host, find_host_by_domain, find_task, has_client,
  host_exists, host_remarks, is_domain_tunnel, is_synced, managed_host_remark, managed_remark,
  place_host, restart_task, store_task, sync_client, sync_clients, sync_from, sync_host, sync_hosts,
  sync_task, sync_tunnel, sync_tunnels, target_of,
}
use cosmo_nps.Integrated.Synced.{IsWanted, sync_nps_state-IsWanted}
use cosmo_nps.Tests.Data.{alice, web, shop}

record Lists : Type 0 where
  clients : List FileClient
  tasks : List FileTask
  hosts : List FileHost

abbrev new_one : Text → FileClient
new_one key = record {
  id = pos 0;
  verify_key = key;
  remark = [];
  status = false;
  web_user_name = [];
  port_pool = [];
  config_conn_allow = false;
  max_tunnel_num = pos 0;
  rate_limit = pos 0;
  flow = none;
  no_display = false;
  addr = [];
  version = [];
  is_connect = false;
  now_conn = pos 0;
  last_online_time = [];
}

abbrev toy : Nps Lists
toy = record {
  is_open = λ _. true;
  has_bridge = λ _. false;
  is_running = λ _ _. false;
  clients = λ l. l.clients;
  tasks = λ l. l.tasks;
  hosts = λ l. l.hosts;
  fresh_client = new_one;
  mark_client = λ _ l. l;
  mark_task = λ _ l. l;
  mark_host = λ _ l. l;
  new_client = λ c l. (ok c, record l { clients = c ∷ l.clients });
  next_task_id = λ l. (pos 9, l);
  next_host_id = λ l. (pos 9, l);
  update_task = λ t l. (ok tt, record l { tasks = t ∷ l.tasks });
  add_task = λ _ l. (ok tt, l);
  store_host = λ h l. record l { hosts = h ∷ l.hosts };
  stop_server = λ _ l. l;
  del_task = λ i l. record l { tasks = keep (λ t. not (eqb_ℤ t.id i)) l.tasks };
  del_host = λ i l. record l { hosts = keep (λ h. not (eqb_ℤ h.id i)) l.hosts };
  del_client = λ i l. record l { clients = keep (λ c. not (eqb_ℤ c.id i)) l.clients };
  del_client_connect = λ _ l. l;
  del_tunnel_and_host = λ _ l. l;
}

module _ {X : Type 0} (mark : X → Mark) (i : ℤ) where
  abbrev other : X → Bool
  other x = not (eqb_ℤ (mark x).0 i)

  kept-there : (xs : List X) (e : Mark) → Memᴰ e (map mark (keep other xs)) → Memᴰ e (map mark xs)
  kept-there xs e at =
      let (x, in_, is) = Memᴰ.of_map mark (keep other xs) at in
      subst (λ m. Memᴰ m (map mark xs)) is (Memᴰ.map mark ((mem-keep other xs x).0 in_).0)

  kept-gone : (xs : List X) (s : Text) → ¬ Memᴰ (i, s) (map mark (keep other xs))
  kept-gone xs s at =
      let (x, in_, is) = Memᴰ.of_map mark (keep other xs) at in
      let stays : not (eqb_ℤ i i) ≡ true =
        ap (λ (m : Mark). not (eqb_ℤ m.0 i)) (sym is) ∙ ((mem-keep other xs x).0 in_).1 in
      ground arith

toy_deletes : Deletes toy
toy_deletes = record {
  stop_server-Shrinks = λ _ l. Shrinks-refl toy l;
  del_client_connect-Shrinks = λ _ l. Shrinks-refl toy l;
  del_tunnel_and_host-Shrinks = λ _ l. Shrinks-refl toy l;
  del_task-Shrinks = λ i l. record {
    of_tasks = kept-there task_mark i l.tasks;
    of_hosts = λ _ h. h;
    of_clients = λ _ h. h;
  };
  del_host-Shrinks = λ i l. record {
    of_tasks = λ _ h. h;
    of_hosts = kept-there host_mark i l.hosts;
    of_clients = λ _ h. h;
  };
  del_client-Shrinks = λ i l. record {
    of_tasks = λ _ h. h;
    of_hosts = λ _ h. h;
    of_clients = kept-there client_mark i l.clients;
  };
  del_task-gone = λ i s l. kept-gone task_mark i l.tasks s;
  del_host-gone = λ i s l. kept-gone host_mark i l.hosts s;
  del_client-gone = λ i s l. kept-gone client_mark i l.clients s;
}

-- a task of a tunnel that is gone, and a client of nobody
abbrev stale : Lists
stale = record {
  clients = record (new_one []) { id = pos 3; remark = str "bob" } ∷ [];
  tasks = record zero_task { id = pos 2; remark = str "tc:old" } ∷ [];
  hosts = [];
}

abbrev keyed : User
keyed = record alice { nps_verify_key = str "k" }

abbrev synced : Lists
synced = (sync_nps_state toy (keyed ∷ []) (web ∷ []) stale).1

old_task_gone : map task_mark synced.tasks ≡ (pos 9, str "tc:") ∷ []
unfolding sync_nps_state sync_clients has_client ◌==◌ str sync_client find_client sync_from
    sync_tunnels sync_tunnel lookup insert is_domain_tunnel sync_task find_task managed_remark
    store_task ◌*ℤ◌ int64 limit_bytes member format_port_ranges range_string client_name
    is_left_over is_unwanted prune prune_clients prune_each prune_hosts prune_tasks remove_client
    remove_task completed_host desired_hosts desired_tasks desired_users filled_client filled_host
    filled_task find_host find_host_by_domain host_exists host_remarks is_synced managed_host_remark
    place_host restart_task sync_host sync_hosts target_of decimal digits itoa has_prefix join keep
old_task_gone = refl

old_client_gone : map client_mark synced.clients ≡ (pos 0, str "alice") ∷ []
unfolding sync_nps_state sync_clients has_client ◌==◌ str sync_client find_client sync_from
    sync_tunnels sync_tunnel lookup insert is_domain_tunnel sync_task find_task managed_remark
    store_task ◌*ℤ◌ int64 limit_bytes member format_port_ranges range_string client_name
    is_left_over is_unwanted prune prune_clients prune_each prune_hosts prune_tasks remove_client
    remove_task completed_host desired_hosts desired_tasks desired_users filled_client filled_host
    filled_task find_host find_host_by_domain host_exists host_remarks is_synced managed_host_remark
    place_host restart_task sync_host sync_hosts target_of decimal digits itoa has_prefix join keep
old_client_gone = refl

sync_works : sync_nps_state toy (keyed ∷ []) (web ∷ []) stale ≡ (ok tt, synced)
unfolding sync_nps_state sync_clients has_client ◌==◌ str sync_client find_client sync_from
    sync_tunnels sync_tunnel lookup insert is_domain_tunnel sync_task find_task managed_remark
    store_task ◌*ℤ◌ int64 limit_bytes member format_port_ranges range_string client_name
    is_left_over is_unwanted prune prune_clients prune_each prune_hosts prune_tasks remove_client
    remove_task completed_host desired_hosts desired_tasks desired_users filled_client filled_host
    filled_task find_host find_host_by_domain host_exists host_remarks is_synced managed_host_remark
    place_host restart_task sync_host sync_hosts target_of decimal digits itoa has_prefix join
sync_works = refl

sync_nps_state-IsWanted_example : IsWanted toy (keyed ∷ []) (web ∷ []) synced
sync_nps_state-IsWanted_example =
    sync_nps_state-IsWanted toy (keyed ∷ []) (web ∷ []) stale synced toy_deletes refl sync_works

-- the test store, where alice has a key
abbrev keyed_shop : Store
keyed_shop = record shop { db = record shop.db { users = (str "alice", keyed) ∷ [] } }

abbrev delivered : Lists
delivered = (sync_once toy (served (λ _. []) (pos 7) keyed_shop) (str "local") (str "t") stale).1

agent_syncs :
    sync_once toy (served (λ _. []) (pos 7) keyed_shop) (str "local") (str "t") stale
    ≡ (ok tt, delivered)
unfolding sync_once served agent_bundle ◌==◌ trim_space str admit_agent get_node lookup normalize_id
    to_lower trim_prefix apply_bundle bundle_for_node sync_nps_state sync_clients users_for_tunnels
    ◌*ℤ◌ int64 limit_bytes filter_tunnels_by_node or_default owns_one member format_port_ranges
    range_string insert client_name is_left_over is_unwanted prune prune_clients prune_each
    prune_hosts prune_tasks remove_client remove_task completed_host desired_hosts desired_tasks
    desired_users filled_client filled_host filled_task find_client find_host find_host_by_domain
    find_task has_client host_exists host_remarks is_domain_tunnel is_synced managed_host_remark
    managed_remark place_host restart_task store_task sync_client sync_from sync_host sync_hosts
    sync_task sync_tunnel sync_tunnels target_of list_tunnels all_users decimal digits itoa
    insert_by sort_by text_leb has_prefix is_space lower_byte strip_prefix trim_left join
agent_syncs = refl

delivered_task : map task_mark delivered.tasks ≡ (pos 9, str "tc:w") ∷ []
unfolding sync_once served agent_bundle ◌==◌ trim_space str admit_agent get_node lookup normalize_id
    to_lower trim_prefix apply_bundle bundle_for_node sync_nps_state sync_clients users_for_tunnels
    ◌*ℤ◌ int64 limit_bytes filter_tunnels_by_node or_default owns_one member format_port_ranges
    range_string insert client_name is_left_over is_unwanted prune prune_clients prune_each
    prune_hosts prune_tasks remove_client remove_task completed_host desired_hosts desired_tasks
    desired_users filled_client filled_host filled_task find_client find_host find_host_by_domain
    find_task has_client host_exists host_remarks is_domain_tunnel is_synced managed_host_remark
    managed_remark place_host restart_task store_task sync_client sync_from sync_host sync_hosts
    sync_task sync_tunnel sync_tunnels target_of list_tunnels all_users decimal digits itoa
    insert_by sort_by text_leb has_prefix is_space lower_byte strip_prefix trim_left join keep
delivered_task = refl

sync_once-IsInLine_example :
    (n : Node) × (get_node keyed_shop (trim_space (str "local")) ≡ some n)
    × (n.enabled ≡ true)
    × (n.token ≢ [])
    × IsInLine toy keyed_shop n delivered
sync_once-IsInLine_example =
    sync_once-IsInLine toy (λ _. []) (pos 7) keyed_shop (str "local") (str "t") stale delivered
      toy_deletes refl agent_syncs
