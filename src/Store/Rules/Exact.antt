-- ===== src/Store/Rules/Exact.antt =====
-- Exactly which tunnels validateTunnelLocked lets through.
use cosmo_nps.Base.{
  ◌≡◌, ◌≢◌, ◌<◌, ◌⊎◌, ◌↔◌, refl, true, false, List, [], ◌∷◌, pos, ◌≤ℤ◌, ok, some, ltb_ℤ, arith,
  length, All, inl, inr, Bool-cases, Bool, ℤ, negsuc, ◌<ℤ◌, eqb_ℤ, sym, ◌∙◌, subst, or-true,
  All-mono,
}
use cosmo_nps.Text.{Text, str, ◌==◌, eq_iff}
use cosmo_nps.Dict.{Dict, lookup}
use cosmo_nps.Dict.Laws.{Entries}
use cosmo_nps.Core.Port.Sound.{Within, port_in_ranges_iff}
use cosmo_nps.Core.Domain.{member}
use cosmo_nps.Core.Domain.Matching.{CoveredBy, domain_in_pools_iff}
use cosmo_nps.Core.Model.{User, Node, Tunnel, Database, engine_nps}
use cosmo_nps.Store.Rules.{
  is_port_mode, is_domain_mode, port_transport, tunnel_node_id, port_clash, domain_clash,
  count_user_tunnels, validate_tunnel,
}
use cosmo_nps.Store.Rules.Complete.{validate_complete}
use cosmo_nps.Store.Rules.Sound.{Admitted, PortAdmitted, DomainAdmitted, validate-Admitted}

-- a stored tunnel listens on the port of a new one
pub record OnPort (new old : Tunnel) : Type 0 where
  pub mode : is_port_mode old.mode ≡ true
  pub node : tunnel_node_id old ≡ new.node_id
  pub port : old.remote_port ≡ new.remote_port
  pub transport : port_transport old.mode ≡ port_transport new.mode

-- a stored tunnel serves a domain in a mode
pub record OnDomain (mode domain : Text) (old : Tunnel) : Type 0 where
  pub web : is_domain_mode old.mode ≡ true
  pub same : old.mode ≡ mode
  pub has : member domain old.domains ≡ true

-- a list of pools that puts no bound where it is empty
abbrev pub InPools {ℓ} : {A : Type ℓ} → List A → Type 0 → Type 0
InPools [] inside = Unit
InPools (_ ∷ _) inside = inside

pub record PortEntry (u : User) (node : Node) (m : Dict Tunnel) (new : Tunnel) (ex : Text)
    : Type 0 where
  pub mode : is_port_mode new.mode ≡ true
  pub positive : pos 1 ≤ℤ new.remote_port
  pub in_user : Within new.remote_port u.port_pools
  pub in_node : InPools node.port_pools (Within new.remote_port node.port_pools)
  pub free : Entries (λ _ old. ¬ ((old.id ≢ ex) × OnPort new old)) m

pub record DomainEntry (u : User) (node : Node) (m : Dict Tunnel) (mode ex d : Text) : Type 0 where
  pub in_user : CoveredBy d u.domain_pools
  pub in_node : InPools node.domain_pools (CoveredBy d node.domain_pools)
  pub free : Entries (λ _ old. ¬ ((old.id ≢ ex) × OnDomain mode d old)) m

pub record WebEntry (u : User) (node : Node) (m : Dict Tunnel) (new : Tunnel) (ex : Text)
    : Type 0 where
  pub mode : is_domain_mode new.mode ≡ true
  pub some_domain : 0 < length new.domains
  pub domains : All (DomainEntry u node m new.mode ex) new.domains

-- all that a tunnel of this owner on this node needs but room in the quota
pub record Fits (m : Dict Tunnel) (u : User) (node : Node) (new : Tunnel) (ex : Text) : Type 0 where
  pub user_enabled : u.enabled ≡ true
  pub node_enabled : node.enabled ≡ true
  pub nps_enabled : node.nps_enabled ≡ true
  pub named : new.user_name ≢ []
  pub engine : new.engine ≡ engine_nps
  pub local_low : pos 1 ≤ℤ new.local_port
  pub local_high : new.local_port ≤ℤ pos 65535
  pub entry : PortEntry u node m new ex ⊎ WebEntry u node m new ex

-- the owner has no quota, or other tunnels of the owner leave room in it
abbrev pub HasRoom : Dict Tunnel → User → Tunnel → Text → Type 0
HasRoom m u new ex =
    (u.max_ports ≤ℤ pos 0) ⊎ (pos (count_user_tunnels m new.user_name ex) <ℤ u.max_ports)

pub record Admissible (db : Database) (new : Tunnel) (ex : Text) : Type 0 where
  pub user : User
  pub user_found : lookup new.user_name db.users ≡ some user
  pub node : Node
  pub node_found : lookup new.node_id db.nodes ≡ some node
  pub fits : Fits db.tunnels user node new ex
  pub room : HasRoom db.tunnels user new ex

eqb_ℤ_iff : (a b : ℤ) → (eqb_ℤ a b ≡ true) ↔ (a ≡ b)
eqb_ℤ_iff (pos m) (pos n) = ground arith
eqb_ℤ_iff (pos m) (negsuc n) = ground arith
eqb_ℤ_iff (negsuc m) (pos n) = ground arith
eqb_ℤ_iff (negsuc m) (negsuc n) = ground arith

port_clash→OnPort :
    (new : Tunnel) (ex : Text) (old : Tunnel)
    → port_clash new ex old ≡ true
    → (old.id ≢ ex) × OnPort new old
unfolding port_clash
port_clash→OnPort new ex old h = (
  λ e. ground (arith, eq_iff old.id ex),
  record {
    mode = ground arith;
    node = (eq_iff (tunnel_node_id old) new.node_id).0 (ground arith);
    port = (eqb_ℤ_iff old.remote_port new.remote_port).0 (ground arith);
    transport = (eq_iff (port_transport old.mode) (port_transport new.mode)).0 (ground arith);
  },
)

OnPort→port_clash :
    (new : Tunnel) (ex : Text) (old : Tunnel)
    → old.id ≢ ex
    → OnPort new old
    → port_clash new ex old ≡ true
unfolding port_clash
OnPort→port_clash new ex old other on =
    let m = on.mode in
    let n = (eq_iff (tunnel_node_id old) new.node_id).1 on.node in
    let p = (eqb_ℤ_iff old.remote_port new.remote_port).1 on.port in
    let t = (eq_iff (port_transport old.mode) (port_transport new.mode)).1 on.transport in
    let apart : old.id == ex ≡ false = ground (arith, eq_iff old.id ex) in
    rw (apart, m, n, p, t) refl

domain_clash→OnDomain :
    (mode d ex : Text) (old : Tunnel)
    → domain_clash mode d ex old ≡ true
    → (old.id ≢ ex) × OnDomain mode d old
unfolding domain_clash
domain_clash→OnDomain mode d ex old h = (
  λ e. ground (arith, eq_iff old.id ex),
  record { web = ground arith; same = (eq_iff old.mode mode).0 (ground arith); has = ground arith },
)

OnDomain→domain_clash :
    (mode d ex : Text) (old : Tunnel)
    → old.id ≢ ex
    → OnDomain mode d old
    → domain_clash mode d ex old ≡ true
unfolding domain_clash
OnDomain→domain_clash mode d ex old other on =
    let w = on.web in
    let s = (eq_iff old.mode mode).1 on.same in
    let h = on.has in
    let apart : old.id == ex ≡ false = ground (arith, eq_iff old.id ex) in rw (apart, w, s, h) refl

-- a test that fails on each entry, and what it tests
none_free :
    (test : Tunnel → Bool) (P : Tunnel → Type 0) (m : Dict Tunnel)
    → ((t : Tunnel) → P t → test t ≡ true)
    → Entries (λ _ t. test t ≡ false) m
    → Entries (λ _ t. ¬ P t) m
none_free test P [] f h = tt
none_free test P ((k, t) ∷ m) f (off, more) = (λ p. cc (sym off ∙ f t p), none_free test P m f more)

free_none :
    (test : Tunnel → Bool) (P : Tunnel → Type 0) (m : Dict Tunnel)
    → ((t : Tunnel) → test t ≡ true → P t)
    → Entries (λ _ t. ¬ P t) m
    → Entries (λ _ t. test t ≡ false) m
free_none test P [] f h = tt
free_none test P ((k, t) ∷ m) f (none_on, more) = (
  elim (Bool-cases (test t)) [ inl on ↦ absurd (none_on (f t on)) | inr off ↦ off ],
  free_none test P m f more,
)

pools-InPools :
    {A : Type 0} (pools : List A) (inside : Type 0)
    → (0 < length pools → inside)
    → InPools pools inside
pools-InPools [] inside h = tt
pools-InPools (p ∷ pools) inside h = h (omega arith)

InPools-pools :
    {A : Type 0} (pools : List A) (inside : Type 0)
    → InPools pools inside
    → 0 < length pools
    → inside
InPools-pools [] inside h q = absurd (omega arith)
InPools-pools (p ∷ pools) inside h q = h

module _ (u : User) (node : Node) (m : Dict Tunnel) (new : Tunnel) (ex : Text) where
  PortAdmitted→PortEntry :
      is_port_mode new.mode ≡ true → PortAdmitted u node m new ex → PortEntry u node m new ex
  PortAdmitted→PortEntry port a = record {
    mode = port;
    positive = a.positive;
    in_user = (port_in_ranges_iff new.remote_port u.port_pools).0 a.in_user;
    in_node =
        pools-InPools node.port_pools _
          (λ q. (port_in_ranges_iff new.remote_port node.port_pools).0 (a.in_node q));
    free =
        none_free (port_clash new ex) (λ old. (old.id ≢ ex) × OnPort new old) m
          (λ old (other, on). OnPort→port_clash new ex old other on) a.unused;
  }

  PortEntry→PortAdmitted : PortEntry u node m new ex → PortAdmitted u node m new ex
  PortEntry→PortAdmitted e = record {
    positive = e.positive;
    in_user = (port_in_ranges_iff new.remote_port u.port_pools).1 e.in_user;
    in_node = λ q.
        (port_in_ranges_iff new.remote_port node.port_pools).1
          (InPools-pools node.port_pools _ e.in_node q);
    unused =
        free_none (port_clash new ex) (λ old. (old.id ≢ ex) × OnPort new old) m
          (λ old on. port_clash→OnPort new ex old on) e.free;
  }

  DomainAdmitted→DomainEntry :
      (mode d : Text) → DomainAdmitted u node m mode ex d → DomainEntry u node m mode ex d
  DomainAdmitted→DomainEntry mode d a = record {
    in_user = (domain_in_pools_iff d u.domain_pools).0 a.in_user;
    in_node =
        pools-InPools node.domain_pools _
          (λ q. (domain_in_pools_iff d node.domain_pools).0 (a.in_node q));
    free =
        none_free (domain_clash mode d ex) (λ old. (old.id ≢ ex) × OnDomain mode d old) m
          (λ old (other, on). OnDomain→domain_clash mode d ex old other on) a.unused;
  }

  DomainEntry→DomainAdmitted :
      (mode d : Text) → DomainEntry u node m mode ex d → DomainAdmitted u node m mode ex d
  DomainEntry→DomainAdmitted mode d e = record {
    in_user = (domain_in_pools_iff d u.domain_pools).1 e.in_user;
    in_node = λ q.
        (domain_in_pools_iff d node.domain_pools).1 (InPools-pools node.domain_pools _ e.in_node q);
    unused =
        free_none (domain_clash mode d ex) (λ old. (old.id ≢ ex) × OnDomain mode d old) m
          (λ old on. domain_clash→OnDomain mode d ex old on) e.free;
  }

-- a mode is not of both kinds
modes_apart : (mode : Text) → is_domain_mode mode ≡ true → is_port_mode mode ≡ false
unfolding is_domain_mode is_port_mode ◌==◌ str
modes_apart mode h = elim (or-true (mode == str "http") (mode == str "https") h) [
  | inl http ↦ subst (λ m. is_port_mode m ≡ false) (sym ((eq_iff mode (str "http")).0 http)) refl
  | inr https ↦ subst (λ m. is_port_mode m ≡ false) (sym ((eq_iff mode (str "https")).0 https)) refl
]

module _ (db : Database) (new : Tunnel) (ex : Text) where
  Admitted→Admissible : Admitted db new ex → Admissible db new ex
  Admitted→Admissible a = record {
    user = a.user;
    user_found = a.user_found;
    node = a.node;
    node_found = a.node_found;
    fits = record {
      user_enabled = a.user_enabled;
      node_enabled = a.node_enabled;
      nps_enabled = a.nps_enabled;
      named = λ e. cc (sym ((eq_iff new.user_name []).1 e) ∙ a.named);
      engine = (eq_iff new.engine engine_nps).0 a.engine;
      local_low = a.local_low;
      local_high = a.local_high;
      entry = elim (Bool-cases (is_port_mode new.mode)) [
        | inl port ↦
            inl (PortAdmitted→PortEntry a.user a.node db.tunnels new ex port (a.port_entry port))
        | inr web ↦
            let (some_domain, ds) = a.domain_entry web in
            let mode = a.mode in
            inr (record {
              mode = ground arith;
              some_domain = some_domain;
              domains =
                  All-mono (DomainAdmitted a.user a.node db.tunnels new.mode ex)
                    (DomainEntry a.user a.node db.tunnels new.mode ex) new.domains
                    (DomainAdmitted→DomainEntry a.user a.node db.tunnels new ex new.mode) ds;
            })
      ];
    };
    room = elim (Bool-cases (ltb_ℤ (pos 0) a.user.max_ports)) [
      | inl limited ↦ let left = a.quota limited in inr (ground arith)
      | inr unlimited ↦ inl (ground arith)
    ];
  }

  Admissible→Admitted : Admissible db new ex → Admitted db new ex
  Admissible→Admitted a = record {
    user = a.user;
    user_found = a.user_found;
    user_enabled = a.fits.user_enabled;
    node = a.node;
    node_found = a.node_found;
    node_enabled = a.fits.node_enabled;
    nps_enabled = a.fits.nps_enabled;
    named = let n = a.fits.named in ground (arith, eq_iff new.user_name []);
    engine = (eq_iff new.engine engine_nps).1 a.fits.engine;
    mode = elim a.fits.entry [
      | inl port ↦ let mode = port.mode in ground arith
      | inr web ↦ let mode = web.mode in ground arith
    ];
    local_low = a.fits.local_low;
    local_high = a.fits.local_high;
    port_entry = λ p. elim a.fits.entry [
      | inl port ↦ PortEntry→PortAdmitted a.user a.node db.tunnels new ex port
      | inr web ↦ absurd (cc (sym p ∙ modes_apart new.mode web.mode))
    ];
    domain_entry = λ q. elim a.fits.entry [
      | inl port ↦ absurd (cc (sym q ∙ port.mode))
      | inr web ↦ (
        web.some_domain,
        All-mono (DomainEntry a.user a.node db.tunnels new.mode ex)
            (DomainAdmitted a.user a.node db.tunnels new.mode ex) new.domains
            (DomainEntry→DomainAdmitted a.user a.node db.tunnels new ex new.mode) web.domains,
      )
    ];
    quota =
        λ limited. elim a.room [ inl none_set ↦ absurd (ground arith) | inr left ↦ ground arith ];
  }

  -- validateTunnelLocked with an id lets a tunnel through exactly when it has an enabled owner and an
  -- enabled node with NPS, the engine NPS, a local port within 1..65535, an entry, and room in its
  -- owner's quota where there is one, the tunnel with the given id not counted. The entry of a port mode
  -- is a port from 1 in the pools of the owner, and of the node where that has some, on which no stored
  -- tunnel of the node but the one with the given id listens with the same transport. The entry of a
  -- domain mode is a non-empty list of domains, each in the pools of the owner, and of the node where
  -- that has some, which no stored tunnel of the same mode but the one with the given id has.
  pub validate_tunnel_iff : (validate_tunnel db new ex ≡ ok tt) ↔ Admissible db new ex
  validate_tunnel_iff = (
    λ h. Admitted→Admissible (validate-Admitted db new ex h),
    λ a. validate_complete db new ex (Admissible→Admitted a),
  )
