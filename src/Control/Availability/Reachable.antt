-- ===== src/Control/Availability/Reachable.antt =====
-- When a tunnel is shown as reachable.
use cosmo_nps.Base.{
  ◌≡◌, ◌≢◌, ◌↔◌, refl, sym, ap, ◌∙◌, Bool, true, false, ◌&&◌, ◌||◌, List, [], ◌∷◌, Memᴰ, inl, inr,
  Bool-cases, arith, any, any_iff, or_assoc, and_iff,
}
use cosmo_nps.Text.{Text, str, ◌==◌, eq_iff}
use cosmo_nps.Core.Model.{Tunnel, RuntimeConfig, Time, default_node_id}
use cosmo_nps.Control.Usage.{or_default}
use cosmo_nps.Control.Clients.{ClientStatus, RuntimeStatus, zero_client, better_client_status}
use cosmo_nps.Control.Clients.Online.{IsNamed, build_status-online}
use cosmo_nps.Control.Probe.{Probe, Net, probe_tunnel_entry, probe_http_entry}
use cosmo_nps.Control.Availability.{
  summarize, known_state, check_availability, availability, is_for, choose, best_for,
  client_status_for_tunnel,
}

summarize-ok :
    (client : Text) (entry : Probe)
    → (summarize client entry).0 ≡ str "ok"
    → (client ≡ str "online") × (entry.state ≡ str "ok")
unfolding summarize str
summarize-ok client entry h =
    ground (arith, eq_iff client (str "online"), eq_iff entry.state (str "ok"))

summarize-online :
    (client : Text) (entry : Probe)
    → client ≡ str "online"
    → entry.state ≡ str "ok"
    → (summarize client entry).0 ≡ str "ok"
unfolding summarize str ◌==◌
summarize-online client entry c e = rw (c, e) refl

better-online :
    (c best : ClientStatus)
    → better_client_status c best ≡ true
    → best.online ≡ true
    → c.online ≡ true
unfolding better_client_status
better-online c best h on = ground arith

worse-online :
    (c best : ClientStatus)
    → better_client_status c best ≡ false
    → c.online ≡ true
    → best.online ≡ true
unfolding better_client_status
worse-online c best h on = ground arith

known_state-online : (state : Text) → (known_state state ≡ str "online") ↔ (state ≡ str "online")
unfolding str ◌==◌
known_state-online state = elim (Bool-cases (state == [])) [
  | inl empty ↦
      rw empty ((λ h. absurd (cc h)), λ h. absurd (cc (sym ((eq_iff state []).0 empty) ∙ h)))
  | inr given ↦ rw given ((λ h. h), λ h. h)
]

check_availability-state :
    (net : Net) (t : Tunnel) (client : RuntimeStatus) (runtime : RuntimeConfig)
    → ((check_availability net t client runtime).state ≡ str "ok") ↔ (
        (t.enabled ≡ true)
        × (client.state ≡ str "online")
        × ((probe_tunnel_entry net t runtime).state ≡ str "ok"))
unfolding check_availability availability str probe_tunnel_entry probe_http_entry
check_availability-state net t client runtime = elim (Bool-cases t.enabled) [
  | inr off ↦ rw (off, check_availability) ((λ h. absurd (cc h)), λ h. absurd (cc h.0))
  | inl on ↦
      let known = known_state-online client.state in
      let entry = probe_tunnel_entry net t runtime in
      rw (on, check_availability)
        (
          (λ h.
              let (is, ok) = summarize-ok (known_state client.state) entry h in
              (refl, known.0 is, ok)),
          λ h. summarize-online (known_state client.state) entry (known.1 h.1) h.2,
        )
]

module _ (t : Tunnel) (named : t.user_name ≢ []) where
  abbrev live_test : ClientStatus → Bool
  live_test c = is_for t c && c.online

  is_for-named : (c : ClientStatus) → is_for t c ≡ true → (c.user_name == []) ≡ false
  unfolding is_for
  is_for-named c h = ground (arith, eq_iff c.user_name [], eq_iff c.user_name t.user_name)

  choose-online :
      (best c : ClientStatus)
      → IsNamed best
      → ((choose t best c).online ≡ (best.online || live_test c)) × IsNamed (choose t best c)
  unfolding choose
  choose-online best c h =
      elim (Bool-cases (is_for t c && (best.user_name == [] || better_client_status c best))) [
        | inl new ↦ rw (new, choose) (ground (arith, is_for-named c, better-online c best))
        | inr old ↦ rw (old, choose) (ground (arith, worse-online c best), h)
      ]

  best_for-online :
      (best : ClientStatus) (cs : List ClientStatus)
      → IsNamed best
      → ((best_for t best cs).online ≡ (best.online || any live_test cs))
        × IsNamed (best_for t best cs)
  unfolding best_for any
  best_for-online best [] h = (ground arith, h)
  best_for-online best (c ∷ cs) h =
      let (here, kept) = choose-online best c h in
      let (rest, last) = best_for-online (choose t best c) cs kept in
      (
        rest
            ∙ ap (λ b. b || any live_test cs) here
            ∙ or_assoc best.online (live_test c) (any live_test cs),
        last,
      )

  -- the tunnel's client is shown online exactly where some live status of it is online
  client_status-online :
      (format : Time → Text) (live : List ClientStatus)
      → ((client_status_for_tunnel format t live).state ≡ str "online")
        ↔ ((c : ClientStatus) × Memᴰ c live × (is_for t c ≡ true) × (c.online ≡ true))
  unfolding client_status_for_tunnel ◌==◌
  client_status-online format live =
      let (is, kept) = best_for-online zero_client live refl in
      let shown =
        build_status-online format t.user_name t.engine (or_default t.node_id == default_node_id)
          (best_for t zero_client live) (record { total = 1; online = 0 }) kept in
      let some_live = any_iff live_test live in
      (
        (λ h.
            let (c, at, fits) = some_live.0 (sym is ∙ shown.0 h) in
            let (of_t, on) = (and_iff (is_for t c) c.online).0 fits in (c, at, of_t, on)),
        λ (c, at, fits, on).
            shown.1 (is ∙ some_live.1 (c, at, (and_iff (is_for t c) c.online).1 (fits, on))),
      )

  -- A tunnel whose user has a name is shown as ok exactly where it is enabled, some live status of its
  -- user, engine and node is online, and the probe of its entry is ok.
  pub check_availability-ok :
      (format : Time → Text) (net : Net) (live : List ClientStatus) (runtime : RuntimeConfig)
      → ((check_availability net t (client_status_for_tunnel format t live) runtime).state
          ≡ str "ok")
        ↔ ((t.enabled ≡ true)
            × ((c : ClientStatus) × Memᴰ c live × (is_for t c ≡ true) × (c.online ≡ true))
            × ((probe_tunnel_entry net t runtime).state ≡ str "ok"))
  unfolding check_availability
  check_availability-ok format net live runtime =
      let client = client_status_for_tunnel format t live in
      let shown = check_availability-state net t client runtime in
      let online = client_status-online format live in
      (
        (λ h. let (on, is, ok) = shown.0 h in (on, online.0 is, ok)),
        λ (on, some_live, ok). shown.1 (on, online.1 some_live, ok),
      )
