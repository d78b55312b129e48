-- ===== src/Integrated/Wanted.antt =====
-- The lists of wanted entries that SyncNPSState makes, and the users and tunnels behind them.
use cosmo_nps.Base.{
  ◌≡◌, refl, true, false, not, ◌&&◌, List, [], ◌∷◌, Memᴰ, inl, inr, ◌⊎◌, Bool-cases, or-true,
  and_iff, arith,
}
use cosmo_nps.Text.{Text, ◌==◌, eq_iff}
use cosmo_nps.Text.Scan.{has_prefix}
use cosmo_nps.Dict.{Dict, lookup}
use cosmo_nps.Core.Domain.{member}
use cosmo_nps.Core.Model.{User, Tunnel, engine_nps}
use cosmo_nps.Store.Tunnels.{is_some}
use cosmo_nps.Integrated.Library.{FileClient}
use cosmo_nps.Integrated.Prune.{managed_prefix, is_left_over, is_unwanted}
use cosmo_nps.Integrated.Sync.{
  managed_remark, managed_host_remark, has_client, desired_users, is_synced, is_domain_tunnel,
  desired_tasks, host_remarks, desired_hosts,
}

-- an enabled user of that name with a key
abbrev pub HasUser : List User → Text → Type 0
HasUser users name = (u : User) × Memᴰ u users × (has_client u ≡ true) × (u.name ≡ name)

-- an enabled NPS tunnel of such a user
abbrev pub IsActive : List User → Tunnel → Type 0
IsActive users t = (t.engine ≡ engine_nps) × (t.enabled ≡ true) × HasUser users t.user_name

abbrev pub IsWantedTask : List User → List Tunnel → Text → Type 0
IsWantedTask users tunnels remark =
    (t : Tunnel) × Memᴰ t tunnels × IsActive users t × (managed_remark t.id ≡ remark)

abbrev pub IsWantedHost : List User → List Tunnel → Text → Type 0
IsWantedHost users tunnels remark =
    (t : Tunnel) × (d : Text) × Memᴰ t tunnels
    × Memᴰ d t.domains
    × IsActive users t
    × (managed_host_remark t.id d ≡ remark)

pub desired_users-member :
    (us : List User) (name : Text) → member name (desired_users us) ≡ true → HasUser us name
unfolding desired_users member
desired_users-member [] name h = cc
desired_users-member (u ∷ us) name h = elim (Bool-cases (has_client u)) [
  | inr off ↦
      let (v, at, on, is) = desired_users-member us name (rw (off, desired_users) at h) in
      (v, Memᴰ.tail at, on, is)
  | inl on ↦
      elim (or-true (u.name == name) (member name (desired_users us))
        (rw (on, desired_users, member) at h)) [
          | inl here ↦ (u, Memᴰ.head refl, on, (eq_iff u.name name).0 here)
          | inr there ↦
              let (v, at, up, is) = desired_users-member us name there in (v, Memᴰ.tail at, up, is)
        ]
]

-- a tunnel that the second loop takes
synced-IsActive :
    (users : List User) (clients : Dict FileClient) (t : Tunnel)
    → ((name : Text) → is_some (lookup name clients) ≡ true → HasUser users name)
    → is_synced clients t ≡ true
    → IsActive users t
unfolding is_synced
synced-IsActive users clients t owner h =
    let (here, has) = (and_iff (t.engine == engine_nps && t.enabled) _).0 h in
    let (nps, on) = (and_iff (t.engine == engine_nps) t.enabled).0 here in
    ((eq_iff t.engine engine_nps).0 nps, on, owner t.user_name has)

module _ (users : List User) (clients : Dict FileClient)
    (owner : (name : Text) → is_some (lookup name clients) ≡ true → HasUser users name) where
  pub desired_tasks-IsWantedTask :
      (ts : List Tunnel) (remark : Text)
      → member remark (desired_tasks clients ts) ≡ true
      → IsWantedTask users ts remark
  unfolding desired_tasks member
  desired_tasks-IsWantedTask [] remark h = cc
  desired_tasks-IsWantedTask (t ∷ ts) remark h =
      elim (Bool-cases (is_synced clients t && not (is_domain_tunnel t))) [
        | inr skipped ↦
            let (s, at, up, is) =
              desired_tasks-IsWantedTask ts remark (rw (skipped, desired_tasks) at h) in
            (s, Memᴰ.tail at, up, is)
        | inl taken ↦
            elim (or-true (managed_remark t.id == remark) (member remark (desired_tasks clients ts))
              (rw (taken, desired_tasks, member) at h)) [
                | inl here ↦ (
                  t,
                  Memᴰ.head refl,
                  synced-IsActive users clients t owner
                      ((and_iff (is_synced clients t) _).0 taken).0,
                  (eq_iff (managed_remark t.id) remark).0 here,
                )
                | inr there ↦
                    let (s, at, up, is) = desired_tasks-IsWantedTask ts remark there in
                    (s, Memᴰ.tail at, up, is)
              ]
      ]

  host_remarks-member :
      (id : Text) (ds rest : List Text) (remark : Text)
      → member remark (host_remarks id ds rest) ≡ true
      → ((d : Text) × Memᴰ d ds × (managed_host_remark id d ≡ remark)) ⊎ (member remark rest ≡ true)
  unfolding host_remarks member
  host_remarks-member id [] rest remark h = inr h
  host_remarks-member id (d ∷ ds) rest remark h =
      elim (or-true (managed_host_remark id d == remark) _ h) [
        | inl here ↦ inl (d, Memᴰ.head refl, (eq_iff (managed_host_remark id d) remark).0 here)
        | inr there ↦ elim (host_remarks-member id ds rest remark there) [
          | inl (e, at, is) ↦ inl (e, Memᴰ.tail at, is)
          | inr later ↦ inr later
        ]
      ]

  pub desired_hosts-IsWantedHost :
      (ts : List Tunnel) (remark : Text)
      → member remark (desired_hosts clients ts) ≡ true
      → IsWantedHost users ts remark
  unfolding desired_hosts member
  desired_hosts-IsWantedHost [] remark h = cc
  desired_hosts-IsWantedHost (t ∷ ts) remark h =
      elim (Bool-cases (is_synced clients t && is_domain_tunnel t)) [
        | inr skipped ↦
            let (s, d, at, in_, up, is) =
              desired_hosts-IsWantedHost ts remark (rw (skipped, desired_hosts) at h) in
            (s, d, Memᴰ.tail at, in_, up, is)
        | inl taken ↦
            elim (host_remarks-member t.id t.domains (desired_hosts clients ts) remark
              (rw (taken, desired_hosts) at h)) [
                | inl (d, in_, is) ↦ (
                  t,
                  d,
                  Memᴰ.head refl,
                  in_,
                  synced-IsActive users clients t owner
                      ((and_iff (is_synced clients t) _).0 taken).0,
                  is,
                )
                | inr there ↦
                    let (s, d, at, in_, up, is) = desired_hosts-IsWantedHost ts remark there in
                    (s, d, Memᴰ.tail at, in_, up, is)
              ]
      ]

pub left_over-cases :
    (desired : List Text) (remark : Text)
    → is_left_over desired remark ≡ false
    → (has_prefix remark managed_prefix ≡ false) ⊎ (member remark desired ≡ true)
unfolding is_left_over
left_over-cases desired remark h = ground arith

pub unwanted-cases :
    (desired : List Text) (name : Text)
    → is_unwanted desired name ≡ false
    → (name ≡ []) ⊎ (member name desired ≡ true)
unfolding is_unwanted
unwanted-cases desired name h = ground (arith, eq_iff name [])
