-- ===== src/Store/Rules/Complete.antt =====
-- What is enough for validateTunnelLocked to let a tunnel through, with the tests of the code.
use cosmo_nps.Base.{
  ◌≡◌, refl, true, false, ◌||◌, List, [], ◌∷◌, ok, arith, All, inl, inr, Bool-cases,
}
use cosmo_nps.Text.{Text, str, ◌==◌}
use cosmo_nps.Dict.{Dict}
use cosmo_nps.Dict.Laws.{Entries}
use cosmo_nps.Core.Model.{User, Node, Tunnel, Database}
use cosmo_nps.Store.Rules.{
  is_port_mode, is_domain_mode, port_clash, check_ports, domain_clash, check_domain_free,
  check_domains, check_entry, validate_tunnel,
}
use cosmo_nps.Store.Rules.Sound.{Admitted, DomainAdmitted}

check_ports_complete :
    (new : Tunnel) (ex : Text) (m : Dict Tunnel)
    → Entries (λ _ old. port_clash new ex old ≡ false) m
    → check_ports new ex m ≡ ok tt
unfolding check_ports
check_ports_complete new ex [] h = refl
check_ports_complete new ex ((k, old) ∷ m) (free, more) =
    rw free (check_ports_complete new ex m more)

check_domain_free_complete :
    (mode domain ex : Text) (m : Dict Tunnel)
    → Entries (λ _ old. domain_clash mode domain ex old ≡ false) m
    → check_domain_free mode domain ex m ≡ ok tt
unfolding check_domain_free
check_domain_free_complete mode domain ex [] h = refl
check_domain_free_complete mode domain ex ((k, old) ∷ m) (free, more) =
    rw free (check_domain_free_complete mode domain ex m more)

check_domains_complete :
    (u : User) (node : Node) (m : Dict Tunnel) (mode ex : Text) (ds : List Text)
    → All (DomainAdmitted u node m mode ex) ds
    → check_domains u node m mode ex ds ≡ ok tt
unfolding check_domains
check_domains_complete u node m mode ex [] h = refl
check_domains_complete u node m mode ex (d ∷ ds) (one, more) =
    let free = check_domain_free_complete mode d ex m one.unused in
    let rest = check_domains_complete u node m mode ex ds more in
    let mine = one.in_user in let its = one.in_node in ground arith

check_entry_complete :
    (db : Database) (new : Tunnel) (ex : Text) (a : Admitted db new ex)
    → check_entry a.user a.node db.tunnels new ex ≡ ok tt
unfolding check_entry
check_entry_complete db new ex a = elim (Bool-cases (is_port_mode new.mode)) [
  | inl port ↦
      let p = a.port_entry port in
      let low = p.positive in
      let mine = p.in_user in
      let its = p.in_node in
      let free = check_ports_complete new ex db.tunnels p.unused in ground arith
  | inr web ↦
      let (some_domain, ds) = a.domain_entry web in
      let rest = check_domains_complete a.user a.node db.tunnels new.mode ex new.domains ds in
      ground arith
]

mode-given : (mode : Text) → (is_port_mode mode || is_domain_mode mode) ≡ true → mode == [] ≡ false
unfolding is_port_mode is_domain_mode ◌==◌ str
mode-given [] h = cc
mode-given (c ∷ mode) h = refl

pub validate_complete :
    (db : Database) (new : Tunnel) (ex : Text)
    → Admitted db new ex
    → validate_tunnel db new ex ≡ ok tt
unfolding validate_tunnel
validate_complete db new ex a =
    let entry = check_entry_complete db new ex a in
    let u = a.user_found in
    let on = a.user_enabled in
    let n = a.node_found in
    let up = a.node_enabled in
    let nps = a.nps_enabled in
    let named = a.named in
    let engine = a.engine in
    let mode = a.mode in
    let low = a.local_low in
    let high = a.local_high in
    let quota = a.quota in let given = mode-given new.mode a.mode in ground arith
