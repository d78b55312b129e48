-- ===== src/Store/Tunnels/Admission.antt =====
-- The tunnel that CreateTunnel or UpdateTunnel stores.
use cosmo_nps.Base.{
  ℕ, ◌≡◌, ◌≢◌, refl, sym, true, not, none, [], ◌∷◌, ◌++◌, ℤ, pos, ok, >>=-eq-ok, ok-injective,
  refuse, arith, inl, inr, Bool-cases, Option-cases, ◌∙◌, ap, if◌then◌else◌, subst, ltb_ℤ, take,
}
use cosmo_nps.Text.{Text, str, ◌==◌, eq_iff}
use cosmo_nps.Text.Decimal.{itoa}
use cosmo_nps.Dict.{lookup}
use cosmo_nps.Core.Domain.{normalize_domains}
use cosmo_nps.Core.Env.{Env, random_secret}
use cosmo_nps.Core.Model.{Tunnel, Database, default_node_id}
use cosmo_nps.Store.Base.{tunnel_id_required, tunnel_id_changed, Store, normalize_id, domain_error}
use cosmo_nps.Store.Rules.{validate_tunnel, tunnel_node_id, check_entry, check_ports, port_clash}
use cosmo_nps.Store.Tunnels.{
  prepare_tunnel, assign_id, next_tunnel_id, stamp_new, admit_prepared, admit_tunnel, found_tunnel,
  adopt_id, admit_changed, admit_update,
}

default_node_id-ne_nil : default_node_id ≢ []
unfolding str
default_node_id-ne_nil e = cc

or_default-ne_nil : (id : Text) → (if id == [] then default_node_id else id) ≢ []
or_default-ne_nil id = elim (Bool-cases (id == [])) [
  | inl blank ↦ rw blank default_node_id-ne_nil
  | inr given ↦ rw given (λ e. ground (arith, eq_iff id []))
]

pub node_id-prepare_tunnel : (new p : Tunnel) → prepare_tunnel new ≡ ok p → p.node_id ≢ []
unfolding prepare_tunnel
node_id-prepare_tunnel new p h =
    let (domains, _, e) = >>=-eq-ok (domain_error (normalize_domains new.domains)) _ h in
    subst (λ (t : Tunnel). t.node_id ≢ []) (ok-injective e)
      (or_default-ne_nil (normalize_id new.node_id))

pub tunnel_node_id_lem : (t : Tunnel) → t.node_id ≢ [] → tunnel_node_id t ≡ t.node_id
unfolding tunnel_node_id
tunnel_node_id_lem t h = ground (arith, eq_iff t.node_id [])

-- the id and the times of a tunnel play no part in its validation
validate-same :
    (db : Database) (t : Tunnel) (ex id : Text) (c u : ℤ)
    → validate_tunnel db (record t { id = id; created_at = c; updated_at = u }) ex
      ≡ validate_tunnel db t ex
unfolding validate_tunnel check_entry check_ports port_clash
validate-same db t ex id c u = refl

append-cons-ne_nil : (s t : Text) (c : ℕ) → (s ++ (c ∷ t)) ≢ []
append-cons-ne_nil [] t c e = cc
append-cons-ne_nil (d ∷ s) t c e = cc

next_tunnel_id-ne_nil :
    (env : Env) (a b c d : Text) (port : ℤ) → next_tunnel_id env a b c d port ≢ []
unfolding next_tunnel_id
next_tunnel_id-ne_nil env a b c d port = elim (Bool-cases (ltb_ℤ (pos 0) port)) [
  | inl given ↦ rw given (append-cons-ne_nil _ (itoa port) b'-')
  | inr zero_port ↦ rw zero_port (append-cons-ne_nil _ (take 8 (random_secret env 0)) b'-')
]

assign_id_lem :
    (env : Env) (p : Tunnel) → (id : Text) × (assign_id env p ≡ record p { id = id }) × (id ≢ [])
unfolding assign_id
assign_id_lem env p = elim (Bool-cases (p.id == [])) [
  | inl blank ↦ (
    next_tunnel_id env p.user_name p.node_id p.engine p.mode p.remote_port,
    rw blank,
    next_tunnel_id-ne_nil env p.user_name p.node_id p.engine p.mode p.remote_port,
  )
  | inr given ↦ (p.id, rw given, λ e. ground (arith, eq_iff p.id []))
]

-- what is known of a stored tunnel
pub record Stored (env : Env) (s : Store) (t : Tunnel) (ex : Text) : Type 0 where
  pub valid : validate_tunnel s.db t ex ≡ ok tt
  pub node : tunnel_node_id t ≡ t.node_id
  pub id_ne : t.id ≢ []
  pub updated : t.updated_at ≡ env.now

pub stamp_new-ok :
    (env : Env) (s : Store) (n t : Tunnel)
    → stamp_new env s n ≡ ok t
    → (t ≡ record n { created_at = env.now; updated_at = env.now }) × (lookup n.id s.tunnels ≡ none)
unfolding stamp_new
stamp_new-ok env s n t h = elim (Option-cases (lookup n.id s.tunnels)) [
  | inl free ↦ (sym (ok-injective (rw free at h)), free)
  | inr (old, used) ↦ absurd (cc (rw used at h))
]

-- a validated tunnel under any id and times
stored_lem :
    (env : Env) (s : Store) (p : Tunnel) (ex id : Text) (c : ℤ)
    → validate_tunnel s.db p ex ≡ ok tt
    → p.node_id ≢ []
    → id ≢ []
    → Stored env s (record p { id = id; created_at = c; updated_at = env.now }) ex
stored_lem env s p ex id c valid node id_ne = record {
  valid = validate-same s.db p ex id c env.now ∙ valid;
  node = tunnel_node_id_lem (record p { id = id; created_at = c; updated_at = env.now }) node;
  id_ne = id_ne;
  updated = refl;
}

admit_prepared-Stored :
    (env : Env) (s : Store) (p t : Tunnel)
    → p.node_id ≢ []
    → admit_prepared env s p ≡ ok t
    → Stored env s t [] × (lookup t.id s.tunnels ≡ none)
unfolding admit_prepared
admit_prepared-Stored env s p t node h =
    let (_, valid, h') = >>=-eq-ok (validate_tunnel s.db p []) _ h in
    let (is, free) = stamp_new-ok env s (assign_id env p) t h' in
    let (id, named, id_ne) = assign_id_lem env p in
    rw (is, named) (stored_lem env s p [] id env.now valid node id_ne, rw named at free)

-- A tunnel that CreateTunnel stores has passed the validation, names its node, and has an id that is
-- not empty and not in use, and the time of the call.
pub admit_tunnel-Stored :
    (env : Env) (s : Store) (new t : Tunnel)
    → admit_tunnel env s new ≡ ok t
    → Stored env s t [] × (lookup t.id s.tunnels ≡ none)
unfolding admit_tunnel
admit_tunnel-Stored env s new t h =
    let (p, prepared, h') = >>=-eq-ok (prepare_tunnel new) (admit_prepared env s) h in
    admit_prepared-Stored env s p t (node_id-prepare_tunnel new p prepared) h'

adopt_id_lem :
    (id : Text) (p : Tunnel)
    → ((adopt_id id p).id == id) ≡ true
    → adopt_id id p ≡ record p { id = id }
unfolding adopt_id
adopt_id_lem id p h = elim (Bool-cases (p.id == [])) [
  | inl blank ↦ rw blank
  | inr given ↦
      rw given (ap (λ (x : Text). record p { id = x }) ((eq_iff p.id id).0 (rw given at h)))
]

admit_changed-Stored :
    (env : Env) (s : Store) (id : Text) (p old t : Tunnel)
    → p.node_id ≢ []
    → id ≢ []
    → admit_changed env s id p old ≡ ok t
    → Stored env s t id × (t.id ≡ id)
unfolding admit_changed
admit_changed-Stored env s id p old t node id_ne h =
    let n = adopt_id id p in
    let (_, passed, h1) = >>=-eq-ok (refuse (not (n.id == id)) tunnel_id_changed) _ h in
    let (_, valid, h2) = >>=-eq-ok (validate_tunnel s.db n id) _ h1 in
    let named = adopt_id_lem id p (ground (arith, passed)) in
    rw (sym (ok-injective h2), named)
      (
        stored_lem env s (record p { id = id }) id id old.created_at
            (subst (λ (x : Tunnel). validate_tunnel s.db x id ≡ ok tt) named valid) node id_ne,
        refl,
      )

-- A tunnel that UpdateTunnel stores has passed the validation, names its node, and has the id that
-- it had, which is not empty, and the time of the call.
pub admit_update-Stored :
    (env : Env) (s : Store) (id : Text) (new t : Tunnel)
    → admit_update env s id new ≡ ok t
    → Stored env s t id × (t.id ≡ id)
unfolding admit_update
admit_update-Stored env s id new t h =
    let (p, prepared, h1) = >>=-eq-ok (prepare_tunnel new) _ h in
    let (_, given, h2) = >>=-eq-ok (refuse (id == []) tunnel_id_required) _ h1 in
    let (old, found, h3) = >>=-eq-ok (found_tunnel (lookup id s.tunnels) id) _ h2 in
    admit_changed-Stored env s id p old t (node_id-prepare_tunnel new p prepared)
      (λ e. ground (arith, given, eq_iff id [])) h3
