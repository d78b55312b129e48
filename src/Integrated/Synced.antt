-- ===== src/Integrated/Synced.antt =====
-- What NPS holds after SyncNPSState: entries of the given users and tunnels only.
use cosmo_nps.Base.{
  ◌≡◌, refl, ap, ◌∙◌, true, false, List, [], ◌∷◌, Memᴰ, Result, ok, err, inl, inr, ◌⊎◌, Bool-cases,
  if◌then◌else◌, subst, All, All-mono, Option, some,
}
use cosmo_nps.Text.{Text, ◌==◌, eq_iff}
use cosmo_nps.Text.Scan.{has_prefix}
use cosmo_nps.Dict.{Dict, lookup, insert}
use cosmo_nps.Dict.Laws.{lookup-insert}
use cosmo_nps.Core.Model.{User, Tunnel}
use cosmo_nps.Store.Tunnels.{is_some}
use cosmo_nps.Integrated.Library.{FileClient, Nps}
use cosmo_nps.Integrated.Prune.{managed_prefix, client_name, prune}
use cosmo_nps.Integrated.Pruned.{Deletes, prune-clean}
use cosmo_nps.Integrated.Sync.{
  has_client, desired_users, desired_tasks, desired_hosts, and_then, sync_client, sync_clients,
  sync_tunnels, sync_from, sync_nps_state,
}
use cosmo_nps.Integrated.Wanted.{
  HasUser, IsWantedTask, IsWantedHost, desired_users-member, desired_tasks-IsWantedTask,
  desired_hosts-IsWantedHost, left_over-cases, unwanted-cases,
}

and_then-ok :
    {L A B : Type 0} (r : Result Text A × L) (next : A → L → Result Text B × L) (b : B) (l1 : L)
    → and_then r next ≡ (ok b, l1)
    → (a : A) × (l : L) × (r ≡ (ok a, l)) × (next a l ≡ (ok b, l1))
and_then-ok (err e, l) next b l1 h = absurd (cc h)
and_then-ok (ok a, l) next b l1 h = (a, l, refl, h)

module _ {L : Type 0} (nps : Nps L) where
  -- the users whose clients the first loop has
  sync_clients-users :
      (us : List User) (clients done : Dict FileClient) (l l1 : L) (name : Text)
      → sync_clients nps clients us l ≡ (ok done, l1)
      → is_some (lookup name done) ≡ true
      → (is_some (lookup name clients) ≡ true) ⊎ HasUser us name
  unfolding sync_clients
  sync_clients-users [] clients done l l1 name h found =
      let same : clients ≡ done = cc h in inl (rw same found)
  sync_clients-users (u ∷ us) clients done l l1 name h found = elim (Bool-cases (has_client u)) [
    | inr off ↦
        elim (sync_clients-users us clients done l l1 name (rw (off, sync_clients) at h) found) [
          | inl old ↦ inl old
          | inr (v, at, on, is) ↦ inr (v, Memᴰ.tail at, on, is)
        ]
    | inl on ↦
        let (c, l2, _, rest) =
          and_then-ok (sync_client nps u l) (λ c. sync_clients nps (insert u.name c clients) us)
            done l1 (rw (on, sync_clients) at h) in
        elim (sync_clients-users us (insert u.name c clients) done l2 l1 name rest found) [
          | inl old ↦ elim (Bool-cases (u.name == name)) [
            | inl here ↦ inr (u, Memᴰ.head refl, on, (eq_iff u.name name).0 here)
            | inr other ↦ inl (
                subst (λ (o : Option FileClient). is_some o ≡ true)
                  (lookup-insert u.name name c clients
                    ∙ ap (λ b. if b then some c else lookup name clients) other)
                  old)
          ]
          | inr (v, at, up, is) ↦ inr (v, Memᴰ.tail at, up, is)
        ]
  ]

  -- from an empty map
  known :
      (us : List User) (done : Dict FileClient) (l l1 : L) (name : Text)
      → sync_clients nps [] us l ≡ (ok done, l1)
      → is_some (lookup name done) ≡ true
      → HasUser us name
  unfolding lookup
  known us done l l1 name h found = elim (sync_clients-users us [] done l l1 name h found) [
    | inl old ↦ absurd (cc old)
    | inr has ↦ has
  ]

  -- what NPS holds is wanted
  abbrev pub IsWanted : List User → List Tunnel → L → Type 0
  IsWanted users tunnels l =
      All (λ t. (has_prefix t.remark managed_prefix ≡ false) ⊎ IsWantedTask users tunnels t.remark)
        (nps.tasks l)
      × All
          (λ h. (has_prefix h.remark managed_prefix ≡ false) ⊎ IsWantedHost users tunnels h.remark)
          (nps.hosts l)
      × All (λ c. (client_name c ≡ []) ⊎ HasUser users (client_name c)) (nps.clients l)

  prune-IsWanted :
      (users : List User) (tunnels : List Tunnel) (clients : Dict FileClient) (l : L)
      → Deletes nps
      → ((name : Text) → is_some (lookup name clients) ≡ true → HasUser users name)
      → IsWanted users tunnels (
          prune nps
            (desired_users users)
            (desired_tasks clients tunnels)
            (desired_hosts clients tunnels)
            l)
  prune-IsWanted users tunnels clients l deletes owner =
      let names = desired_users users in
      let tasks = desired_tasks clients tunnels in
      let hosts = desired_hosts clients tunnels in
      let left = prune nps names tasks hosts l in
      let (of_tasks, of_hosts, of_clients) = prune-clean nps deletes names tasks hosts l in
      (
        All-mono _ _ (nps.tasks left)
            (λ t none_left. elim (left_over-cases tasks t.remark none_left) [
              | inl foreign ↦ inl foreign
              | inr wanted ↦
                  inr (desired_tasks-IsWantedTask users clients owner tunnels t.remark wanted)
            ])
            of_tasks,
        All-mono _ _ (nps.hosts left)
            (λ h none_left. elim (left_over-cases hosts h.remark none_left) [
              | inl foreign ↦ inl foreign
              | inr wanted ↦
                  inr (desired_hosts-IsWantedHost users clients owner tunnels h.remark wanted)
            ])
            of_hosts,
        All-mono _ _ (nps.clients left)
            (λ c none_left. elim (unwanted-cases names (client_name c) none_left) [
              | inl unnamed ↦ inl unnamed
              | inr wanted ↦ inr (desired_users-member users (client_name c) wanted)
            ])
            of_clients,
      )

  sync_from-IsWanted :
      (users : List User) (tunnels : List Tunnel) (clients : Dict FileClient) (l l1 : L)
      → Deletes nps
      → ((name : Text) → is_some (lookup name clients) ≡ true → HasUser users name)
      → sync_from nps users tunnels clients l ≡ (ok tt, l1)
      → IsWanted users tunnels l1
  unfolding sync_from
  sync_from-IsWanted users tunnels clients l l1 deletes owner h =
      let (_, l2, _, pruned) = and_then-ok (sync_tunnels nps clients tunnels l) _ tt l1 h in
      subst (IsWanted users tunnels) (ap (λ (r : Result Text Unit × L). r.1) pruned)
        (prune-IsWanted users tunnels clients l2 deletes owner)

  -- If SyncNPSState answers no error on an open database, and stopping and deleting bring no entry back
  -- while a deletion takes the entries of its id away, then what is left in NPS is wanted: every task and
  -- host with the prefix "tc:" is that of an enabled NPS tunnel of the given ones, whose user is an
  -- enabled given user with a key, and every client with a name is that of such a user.
  pub sync_nps_state-IsWanted :
      (users : List User) (tunnels : List Tunnel) (l l1 : L)
      → Deletes nps
      → nps.is_open l ≡ true
      → sync_nps_state nps users tunnels l ≡ (ok tt, l1)
      → IsWanted users tunnels l1
  unfolding sync_nps_state
  sync_nps_state-IsWanted users tunnels l l1 deletes opened h =
      let (clients, l2, first, second) =
        and_then-ok (sync_clients nps [] users l) (sync_from nps users tunnels) tt l1
          (rw (opened, sync_nps_state) at h) in
      sync_from-IsWanted users tunnels clients l2 l1 deletes
        (λ name found. known users clients l l2 name first found) second
