-- ===== src/Agent/Delivered.antt =====
-- The control server and an agent together: what the agent's NPS holds after a sync.
use cosmo_nps.Base.{
  ◌≡◌, ◌≢◌, ap, ◌∙◌, true, false, not, ◌&&◌, Memᴰ, Result, ok, err, inl, inr, ◌⊎◌, Bool-cases,
  Result-cases, All, All-mono, pos, false, some, [],
}
use cosmo_nps.Text.{Text, ◌==◌}
use cosmo_nps.Text.Scan.{has_prefix, trim_space}
use cosmo_nps.Dict.{values}
use cosmo_nps.Core.Model.{User, Node, Tunnel, Time, zero_user}
use cosmo_nps.Store.Base.{Store}
use cosmo_nps.Store.Nodes.{get_node}
use cosmo_nps.Control.Sessions.{ApiError}
use cosmo_nps.Control.Usage.{or_default}
use cosmo_nps.Control.Nodes.{AgentSyncBundle, agent_bundle}
use cosmo_nps.Control.Nodes.Bundle.{IsDelivery, agent_bundle-IsDelivery}
use cosmo_nps.Integrated.Library.{Nps}
use cosmo_nps.Integrated.Prune.{managed_prefix, client_name}
use cosmo_nps.Integrated.Pruned.{Deletes}
use cosmo_nps.Integrated.Sync.{managed_remark, managed_host_remark, sync_nps_state}
use cosmo_nps.Integrated.Wanted.{HasUser, IsActive}
use cosmo_nps.Integrated.Synced.{IsWanted, sync_nps_state-IsWanted}
use cosmo_nps.Agent.{AgentError, synced, apply_bundle, sync_once, bearer_header}

-- the request to the control server, an error being its text
unfoldable pub served : (ApiError → Text) → Time → Store → Text → Text → Result Text AgentSyncBundle
served text now s query header = elim (agent_bundle now query header s) [
  | ok b ↦ ok b
  | err e ↦ err (text e)
]

-- an enabled NPS tunnel of the store, of the node, and of a stored user who has a client
abbrev pub IsServed : Store → Node → Tunnel → Type 0
IsServed s n t =
    Memᴰ t (values s.tunnels)
    × (or_default t.node_id ≡ or_default n.id)
    × IsActive (values s.users) t

-- what an agent's NPS holds for a node of the store
abbrev pub IsInLine : {L : Type 0} → Nps L → Store → Node → L → Type 0
IsInLine nps s n l =
    All
      (λ task.
        (has_prefix task.remark managed_prefix ≡ false)
        ⊎ ((t : Tunnel) × IsServed s n t × (managed_remark t.id ≡ task.remark)))
      (nps.tasks l)
    × All
        (λ host.
          (has_prefix host.remark managed_prefix ≡ false)
          ⊎ ((t : Tunnel) × (d : Text) × Memᴰ d t.domains
              × IsServed s n t
              × (managed_host_remark t.id d ≡ host.remark)))
        (nps.hosts l)
    × All (λ c. (client_name c ≡ []) ⊎ HasUser (values s.users) (client_name c)) (nps.clients l)

-- the members of a bundle are known for any tunnel and user; this one stands for a tunnel not asked for
abbrev empty_tunnel : Tunnel
empty_tunnel = record {
  id = [];
  user_name = [];
  node_id = [];
  engine = [];
  mode = [];
  remote_port = pos 0;
  local_ip = [];
  local_port = pos 0;
  domains = [];
  remark = [];
  enabled = false;
  created_at = pos 0;
  updated_at = pos 0;
}

synced-ok :
    {L : Type 0} (nps : Nps L) (r : Result Text Unit × L) (l1 : L)
    → synced nps r ≡ (ok tt, l1)
    → r ≡ (ok tt, l1)
synced-ok nps (ok _, l) l1 h = ap (λ (e : Result AgentError Unit × _). (ok tt, e.1)) h
synced-ok nps (err e, l) l1 h = absurd (cc h)

apply_bundle-ok :
    {L : Type 0} (nps : Nps L) (node_id : Text) (b : AgentSyncBundle) (l l1 : L)
    → apply_bundle nps node_id b l ≡ (ok tt, l1)
    → sync_nps_state nps b.users b.tunnels l ≡ (ok tt, l1)
unfolding apply_bundle
apply_bundle-ok nps node_id b l l1 h =
    elim (Bool-cases (not (b.node.id == []) && not (b.node.id == node_id))) [
      | inl other ↦ absurd (cc (rw (other, apply_bundle) at h))
      | inr own ↦ synced-ok nps _ l1 (rw (own, apply_bundle) at h)
    ]

-- the bundle of a request that was served
served-ok :
    (text : ApiError → Text) (now : Time) (s : Store) (query header : Text) (b : AgentSyncBundle)
    → served text now s query header ≡ ok b
    → agent_bundle now query header s ≡ ok b
unfolding served
served-ok text now s query header b h = elim (Result-cases (agent_bundle now query header s)) [
  | inl (e, bad) ↦ absurd (cc (rw (bad, served) at h))
  | inr (c, good) ↦ good ∙ cc (rw (good, served) at h)
]

module _ (query header : Text) (s : Store) (b : AgentSyncBundle)
    (delivery : (t : Tunnel) (u : User) → IsDelivery query header s t u b) where
  user-stored : (u : User) (t : Tunnel) → Memᴰ u b.users → Memᴰ u (values s.users)
  user-stored u t at = let (_, _, _, _, _, of_user) = delivery t u in (of_user.0 at).0

  HasUser-stored : (t : Tunnel) (name : Text) → HasUser b.users name → HasUser (values s.users) name
  HasUser-stored t name (u, at, on, is) = (u, user-stored u t at, on, is)

  active-IsServed : (t : Tunnel) → Memᴰ t b.tunnels → IsActive b.users t → IsServed s b.node t
  active-IsServed t at (nps, on, owner) =
      let (u, _, _, _) = owner in
      let (_, _, _, _, of_tunnel, _) = delivery t u in
      let (there, here) = of_tunnel.0 at in
      (there, here, (nps, on, HasUser-stored t t.user_name owner))

  wanted-IsInLine :
      {L : Type 0} (nps : Nps L) (l : L)
      → IsWanted nps b.users b.tunnels l
      → IsInLine nps s b.node l
  wanted-IsInLine nps l (tasks, hosts, clients) = (
    All-mono _ _ (nps.tasks l)
        (λ task h. elim h [
          | inl foreign ↦ inl foreign
          | inr (t, at, up, is) ↦ inr (t, active-IsServed t at up, is)
        ])
        tasks,
    All-mono _ _ (nps.hosts l)
        (λ host h. elim h [
          | inl foreign ↦ inl foreign
          | inr (t, d, at, in_, up, is) ↦ inr (t, d, in_, active-IsServed t at up, is)
        ])
        hosts,
    All-mono _ _ (nps.clients l)
        (λ c h. elim h [
          | inl unnamed ↦ inl unnamed
          | inr owner ↦ inr (HasUser-stored empty_tunnel (client_name c) owner)
        ])
        clients,
  )

-- If an agent's sync with the control server answers no error, on an open database whose deletions work
-- as the library documents, then it has named an enabled node of the store that has a token, and what is
-- left on the agent's NPS is in line with the store: every task and host with the prefix "tc:" is that of
-- an enabled NPS tunnel of the store that is placed on this node and whose user is an enabled stored user
-- with a key, and every client with a name is that of such a user.
pub sync_once-IsInLine :
    {L : Type 0} (nps : Nps L) (text : ApiError → Text) (now : Time) (s : Store)
    (node_id token : Text) (l l1 : L)
    → Deletes nps
    → nps.is_open l ≡ true
    → sync_once nps (served text now s) node_id token l ≡ (ok tt, l1)
    → (n : Node) × (get_node s (trim_space node_id) ≡ some n)
      × (n.enabled ≡ true)
      × (n.token ≢ [])
      × IsInLine nps s n l1
unfolding sync_once
sync_once-IsInLine nps text now s node_id token l l1 deletes opened h =
    let header = bearer_header token in
    elim (Result-cases (served text now s node_id header)) [
      | inl (e, bad) ↦ absurd (cc (rw (bad, sync_once) at h))
      | inr (b, good) ↦
          let applied = apply_bundle-ok nps node_id b l l1 (rw (good, sync_once) at h) in
          let delivery = λ (t : Tunnel) (u : User).
            agent_bundle-IsDelivery now node_id header s b t u
              (served-ok text now s node_id header b good) in
          let wanted = sync_nps_state-IsWanted nps b.users b.tunnels l l1 deletes opened applied in
          let (at, on, named, _, _, _) = delivery empty_tunnel zero_user in
          (b.node, at, on, named, wanted-IsInLine node_id header s b delivery nps l1 wanted)
    ]
