-- ===== src/Control/Clients/Online.antt =====
-- When the client of a user is shown as online.
use cosmo_nps.Base.{
  ◌≡◌, ◌↔◌, refl, Bool, true, false, ◌&&◌, [], inl, inr, Bool-cases, if◌then◌else◌, arith,
}
use cosmo_nps.Text.{Text, str, ◌==◌}
use cosmo_nps.Core.Model.{Time}
use cosmo_nps.Control.Clients.{ClientStatus, TunnelCount, build_status, offline_status, live_status}

-- a status without a name is offline
abbrev pub IsNamed : ClientStatus → Type 0
IsNamed c = (c.user_name == [] && c.online) ≡ false

not_online :
    (embedded : Bool)
    → (if embedded then str "offline" else str "unknown") ≡ str "online"
    → false ≡ true
unfolding str
not_online true h = cc
not_online false h = cc

module _ (format : Time → Text) (user_name engine : Text) (embedded : Bool) (live : ClientStatus)
    (count : TunnelCount) where
  live_status-online :
      ((live_status format user_name engine embedded live count).state ≡ str "online")
      ↔ (live.online ≡ true)
  unfolding live_status
  live_status-online = elim (Bool-cases live.online) [
    | inl on ↦ rw on ((λ _. refl), λ _. refl)
    | inr off ↦ rw off (not_online embedded, λ h. absurd (cc h))
  ]

  -- the status that is built for an engine is online exactly where the live status is
  pub build_status-online :
      IsNamed live
      → ((build_status format user_name engine embedded live count).state ≡ str "online")
        ↔ (live.online ≡ true)
  unfolding build_status offline_status
  build_status-online h = elim (Bool-cases (live.user_name == [])) [
    | inr named ↦ rw (named, build_status) live_status-online
    | inl empty ↦
        let off : live.online ≡ false = ground arith in
        rw (empty, build_status, off) (not_online embedded, λ h. absurd (cc h))
  ]
