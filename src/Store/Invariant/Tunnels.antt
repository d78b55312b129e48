-- ===== src/Store/Invariant/Tunnels.antt =====
-- Writing an admitted tunnel and deleting a tunnel keep the invariant.
use cosmo_nps.Base.{
  ◌≡◌, ◌≢◌, ◌⊎◌, true, false, some, [], List, ◌∷◌, refl, sym, ◌∙◌, inl, inr, arith, Bool-cases, All,
}
use cosmo_nps.Text.{Text, str, ◌==◌, eq_iff}
use cosmo_nps.Dict.{lookup, insert, delete}
use cosmo_nps.Dict.Laws.{
  lookup-insert-cases, lookup-delete-some, insert-Distinct, delete-Distinct, Entries-lookup,
}
use cosmo_nps.Core.Domain.{member}
use cosmo_nps.Core.Model.{Tunnel, Database, Time}
use cosmo_nps.Store.Rules.{
  is_port_mode, is_domain_mode, port_transport, tunnel_node_id, validate_tunnel, check_entry,
  check_ports, port_clash, domain_clash,
}
use cosmo_nps.Store.Rules.Sound.{Admitted, DomainAdmitted}
use cosmo_nps.Store.Invariant.{SharesPort, Clashes, IsShaped, WellFormed}

Clashes-sym : {a b : Tunnel} → Clashes a b → Clashes b a
Clashes-sym (inl p) = inl (record {
  left_mode = p.right_mode;
  right_mode = p.left_mode;
  node = sym p.node;
  port = sym p.port;
  transport = sym p.transport;
})
Clashes-sym (inr d) = inr (record {
  domain = d.domain;
  left_mode = d.right_mode;
  right_mode = d.left_mode;
  mode = sym d.mode;
  left_has = d.right_has;
  right_has = d.left_has;
})

port_clash-false :
    (new : Tunnel) (ex : Text) (old : Tunnel)
    → port_clash new ex old ≡ false
    → (old.id == ex) ≡ false
    → tunnel_node_id new ≡ new.node_id
    → ¬ SharesPort old new
unfolding port_clash
port_clash-false new ex old h other placed p = ground (
  arith,
  eq_iff (tunnel_node_id old) new.node_id,
  eq_iff (port_transport old.mode) (port_transport new.mode),
)

domain_clash-false :
    (new : Tunnel) (domain ex : Text) (old : Tunnel)
    → domain_clash new.mode domain ex old ≡ false
    → (old.id == ex) ≡ false
    → is_domain_mode old.mode ≡ true
    → old.mode ≡ new.mode
    → member domain old.domains ≡ false
unfolding domain_clash
domain_clash-false new domain ex old h other mode same = ground (arith, eq_iff old.mode new.mode)

literal_modes_disjoint : (is_port_mode (str "http") ≡ false) × (is_port_mode (str "https") ≡ false)
unfolding is_port_mode str ◌==◌
literal_modes_disjoint = (refl, refl)

pub modes_disjoint : (mode : Text) → is_domain_mode mode ≡ true → is_port_mode mode ≡ false
unfolding is_domain_mode
modes_disjoint mode h = elim (Bool-cases (mode == str "http")) [
  | inl http ↦ rw ((eq_iff mode (str "http")).0 http) literal_modes_disjoint.0
  | inr other ↦ rw ((eq_iff mode (str "https")).0 (ground arith)) literal_modes_disjoint.1
]

module _ (db : Database) (new : Tunnel) (ex : Text) (wf : WellFormed db) (ad : Admitted db new ex)
    (placed : tunnel_node_id new ≡ new.node_id) where
  admitted-IsShaped : IsShaped new
  admitted-IsShaped = record {
    local_low = ad.local_low;
    local_high = ad.local_high;
    entry = elim (Bool-cases (is_port_mode new.mode)) [
      | inl port ↦ inl (port, (ad.port_entry port).positive)
      | inr domain ↦ inr (ground (arith, ad.mode), (ad.domain_entry domain).0)
    ];
  }

  domains-free :
      (ds : List Text) (old : Tunnel) (k d : Text)
      → All (DomainAdmitted ad.user ad.node db.tunnels new.mode ex) ds
      → lookup k db.tunnels ≡ some old
      → (old.id == ex) ≡ false
      → is_domain_mode old.mode ≡ true
      → old.mode ≡ new.mode
      → member d ds ≡ true
      → member d old.domains ≡ false
  unfolding member
  domains-free [] old k d h found other mode same m = absurd (ground arith)
  domains-free (x ∷ ds) old k d h found other mode same m = elim (Bool-cases (x == d)) [
    | inl here ↦
        domain_clash-false new d ex old
          (rw (← (eq_iff x d).0 here) (
            Entries-lookup (λ _ o. domain_clash new.mode x ex o ≡ false) k old db.tunnels h.0.unused
              found))
          other mode same
    | inr there ↦ domains-free ds old k d h.1 found other mode same (ground arith)
  ]

  admitted-free :
      (old : Tunnel) (k : Text)
      → lookup k db.tunnels ≡ some old
      → (old.id == ex) ≡ false
      → ¬ Clashes old new
  admitted-free old k found other (inl p) =
      port_clash-false new ex old
        (Entries-lookup (λ _ o. port_clash new ex o ≡ false) k old db.tunnels
          (ad.port_entry p.right_mode).unused found)
        other placed p
  admitted-free old k found other (inr d) =
      let free =
        domains-free new.domains old k d.domain
          (ad.domain_entry (modes_disjoint new.mode d.right_mode)).1 found other d.left_mode d.mode
          d.right_has in
      cc (free, d.left_has)

  module _ (id : Text) (id_ne : id ≢ []) (named : new.id ≡ id)
      (others : (k : Text) (old : Tunnel)
        → lookup k db.tunnels ≡ some old
        → k ≢ id
        → (old.id == ex) ≡ false) where
    exclusive-cases :
        (j k : Text) (a b : Tunnel)
        → j ≢ k
        → ((id ≡ j) × (new ≡ a)) ⊎ ((id ≢ j) × (lookup j db.tunnels ≡ some a))
        → ((id ≡ k) × (new ≡ b)) ⊎ ((id ≢ k) × (lookup k db.tunnels ≡ some b))
        → ¬ Clashes a b
    exclusive-cases j k a b ne (inl (ij, _)) (inl (ik, _)) = absurd (ne (sym ij ∙ ik))
    exclusive-cases j k a b ne (inl (ij, is)) (inr (ik, old)) =
        λ c. admitted-free b k old (others k b old (λ e. ik (sym e))) (rw is (Clashes-sym c))
    exclusive-cases j k a b ne (inr (ij, old)) (inl (ik, is)) =
        rw (← is) (admitted-free a j old (others j a old (λ e. ij (sym e))))
    exclusive-cases j k a b ne (inr (_, ha)) (inr (_, hb)) = wf.exclusive j k a b ha hb ne

    -- Storing an admitted tunnel at its id keeps the invariant.
    pub insert-WellFormed : WellFormed (record db { tunnels = insert id new db.tunnels })
    insert-WellFormed = record {
      default_node = wf.default_node;
      users_distinct = wf.users_distinct;
      nodes_distinct = wf.nodes_distinct;
      tunnels_distinct = insert-Distinct id new db.tunnels wf.tunnels_distinct;
      users_named = wf.users_named;
      nodes_named = wf.nodes_named;
      tunnels_named = λ k t h. elim (lookup-insert-cases id k new t db.tunnels h) [
        | inl (at, is) ↦ (rw (← is, ← at) named, rw (← at) id_ne)
        | inr (_, old) ↦ wf.tunnels_named k t old
      ];
      owned = λ k t h. elim (lookup-insert-cases id k new t db.tunnels h) [
        | inl (_, is) ↦ rw (← is) (ad.user, ad.user_found)
        | inr (_, old) ↦ wf.owned k t old
      ];
      placed = λ k t h. elim (lookup-insert-cases id k new t db.tunnels h) [
        | inl (_, is) ↦ rw (← is, placed) (ad.node, ad.node_found)
        | inr (_, old) ↦ wf.placed k t old
      ];
      shaped = λ k t h. elim (lookup-insert-cases id k new t db.tunnels h) [
        | inl (_, is) ↦ rw (← is) admitted-IsShaped
        | inr (_, old) ↦ wf.shaped k t old
      ];
      exclusive = λ j k a b ha hb ne.
          exclusive-cases j k a b ne (lookup-insert-cases id j new a db.tunnels ha)
            (lookup-insert-cases id k new b db.tunnels hb);
    }

pub validate-same :
    (db : Database) (t : Tunnel) (ex id : Text) (c u : Time)
    → validate_tunnel db (record t { id = id; created_at = c; updated_at = u }) ex
      ≡ validate_tunnel db t ex
unfolding validate_tunnel check_entry check_ports port_clash
validate-same db t ex id c u = refl

-- Deleting a tunnel keeps the invariant.
pub delete-WellFormed :
    (db : Database) (id : Text)
    → WellFormed db
    → WellFormed (record db { tunnels = delete id db.tunnels })
delete-WellFormed db id wf =
    let old = λ (k : Text) (t : Tunnel) (h : lookup k (delete id db.tunnels) ≡ some t).
      lookup-delete-some id k t db.tunnels h in
    record {
      default_node = wf.default_node;
      users_distinct = wf.users_distinct;
      nodes_distinct = wf.nodes_distinct;
      tunnels_distinct = delete-Distinct id db.tunnels wf.tunnels_distinct;
      users_named = wf.users_named;
      nodes_named = wf.nodes_named;
      tunnels_named = λ k t h. wf.tunnels_named k t (old k t h);
      owned = λ k t h. wf.owned k t (old k t h);
      placed = λ k t h. wf.placed k t (old k t h);
      shaped = λ k t h. wf.shaped k t (old k t h);
      exclusive = λ j k a b ha hb. wf.exclusive j k a b (old j a ha) (old k b hb);
    }
