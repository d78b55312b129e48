-- ===== src/Store/Tunnels/Updated.antt =====
-- What UpdateTunnel leaves when it answers a tunnel.
use cosmo_nps.Base.{
  ◌≡◌, refl, ap, ◌∙◌, some, [], ok, >>=-eq-ok, ok-injective, subst, inl, inr, Bool-cases,
  Option-cases, refuse, not,
}
use cosmo_nps.Text.{Text, ◌==◌}
use cosmo_nps.Dict.{lookup}
use cosmo_nps.Core.Env.{Env}
use cosmo_nps.Core.Model.{Tunnel}
use cosmo_nps.Store.Base.{Store, tunnel_id_required, tunnel_id_changed}
use cosmo_nps.Store.Rules.{validate_tunnel}
use cosmo_nps.Store.Rules.Exact.{Admissible, validate_tunnel_iff}
use cosmo_nps.Store.Tunnels.{
  prepare_tunnel, found_tunnel, adopt_id, admit_changed, admit_update, update_tunnel,
}
use cosmo_nps.Store.Tunnels.Admission.{admit_update-Stored}
use cosmo_nps.Store.Tunnels.Created.{
  KeepsRequest, WritesTunnel, writes_lem, KeepsRequest-prepare_tunnel,
}

adopt_id-keeps :
    (id : Text) (new p : Tunnel) → KeepsRequest new p → KeepsRequest new (adopt_id id p)
unfolding adopt_id
adopt_id-keeps id new p k = elim (Bool-cases (p.id == [])) [
  | inl blank ↦ rw blank (record {
    owner = k.owner;
    local_port = k.local_port;
    remark = k.remark;
    enabled = k.enabled;
  })
  | inr given ↦ rw given k
]

found_tunnel-ok :
    (s : Store) (id : Text) (old : Tunnel)
    → found_tunnel (lookup id s.tunnels) id ≡ ok old
    → lookup id s.tunnels ≡ some old
found_tunnel-ok s id old h = elim (Option-cases (lookup id s.tunnels)) [
  | inl missing ↦ absurd (cc (rw missing at h))
  | inr (t, found) ↦ found ∙ ap some (ok-injective (rw found at h))
]

admit_update-keeps :
    (env : Env) (s : Store) (id : Text) (new t : Tunnel)
    → admit_update env s id new ≡ ok t
    → KeepsRequest new t
      × ((old : Tunnel) × (lookup id s.tunnels ≡ some old) × (t.created_at ≡ old.created_at))
unfolding admit_update admit_changed
admit_update-keeps env s id new t h =
    let (p, prepared, h1) = >>=-eq-ok (prepare_tunnel new) _ h in
    let (_, given, h2) = >>=-eq-ok (refuse (id == []) tunnel_id_required) _ h1 in
    let (old, found, h3) = >>=-eq-ok (found_tunnel (lookup id s.tunnels) id) _ h2 in
    let n = adopt_id id p in
    let (_, passed, h4) = >>=-eq-ok (refuse (not (n.id == id)) tunnel_id_changed) _ h3 in
    let (_, valid, h5) = >>=-eq-ok (validate_tunnel s.db n id) _ h4 in
    let k = adopt_id-keeps id new p (KeepsRequest-prepare_tunnel new p prepared).0 in
    subst
      (λ (x : Tunnel).
        KeepsRequest new x
        × ((o : Tunnel) × (lookup id s.tunnels ≡ some o) × (x.created_at ≡ o.created_at)))
      (ok-injective h5)
      (
        record {
          owner = k.owner;
          local_port = k.local_port;
          remark = k.remark;
          enabled = k.enabled;
        },
        (old, found_tunnel-ok s id old found, refl),
      )

-- a changed tunnel, made of a request and written over the one with its id
pub record IsUpdated (env : Env) (before after : Store) (id : Text) (new t : Tunnel) : Type 0 where
  pub admissible : Admissible before.db t id
  pub keeps : KeepsRequest new t
  pub id_kept : t.id ≡ id
  pub old : Tunnel
  pub old_found : lookup id before.tunnels ≡ some old
  pub created : t.created_at ≡ old.created_at
  pub updated : t.updated_at ≡ env.now
  pub writes : WritesTunnel before after id t

-- Where UpdateTunnel of an id answers a tunnel, a tunnel was stored at the id, the memory and the file hold
-- the answered one there, and all else of the store is as it was. The tunnel has the id, the owner, the
-- local port, the remark and the switch of the request, the creation time of the old one, and the time of
-- the call. Against the store as it was, it is admissible in the place of the old one: its owner and its
-- node are enabled, its entry is in their pools and not in use by another tunnel, and its owner has room.
pub update_tunnel-IsUpdated :
    (env : Env) (s : Store) (id : Text) (new t : Tunnel)
    → (update_tunnel env id new s).0 ≡ ok t
    → IsUpdated env s (update_tunnel env id new s).1 id new t
unfolding update_tunnel
update_tunnel-IsUpdated env s id new t h =
    let (admitted, writes) = writes_lem env (admit_update env s id new) (λ n. id) s t h in
    let (stored, same) = admit_update-Stored env s id new t admitted in
    let (keeps, (old, found, created)) = admit_update-keeps env s id new t admitted in
    record {
      admissible = (validate_tunnel_iff s.db t id).0 stored.valid;
      keeps = keeps;
      id_kept = same;
      old = old;
      old_found = found;
      created = created;
      updated = stored.updated;
      writes = writes;
    }
