-- ===== src/Store/Tunnels/Created.antt =====
-- What CreateTunnel leaves when it answers a tunnel.
use cosmo_nps.Base.{
  ◌≡◌, ◌≢◌, ◌⊎◌, refl, sym, ap, ◌∙◌, none, some, [], ok, err, Result, >>=-eq-ok, ok-injective,
  subst, inl, inr, Bool-cases, Option-cases, if◌then◌else◌,
}
use cosmo_nps.Text.{Text, ◌==◌, eq_iff}
use cosmo_nps.Dict.{lookup, insert}
use cosmo_nps.Dict.Laws.{lookup-insert}
use cosmo_nps.Core.Domain.{normalize_domains}
use cosmo_nps.Core.Env.{Env, saved}
use cosmo_nps.Core.Model.{Tunnel}
use cosmo_nps.Store.Base.{
  Store, StoreError, saving, checked, save_locked, with_tunnels, domain_error,
}
use cosmo_nps.Store.Rules.{validate_tunnel}
use cosmo_nps.Store.Rules.Exact.{Admissible, validate_tunnel_iff}
use cosmo_nps.Store.Tunnels.{prepare_tunnel, assign_id, admit_prepared, admit_tunnel, create_tunnel}
use cosmo_nps.Store.Tunnels.Admission.{stamp_new-ok, admit_tunnel-Stored}

-- The fields of a request that a stored tunnel keeps as they are.
pub record KeepsRequest (new t : Tunnel) : Type 0 where
  pub owner : t.user_name ≡ new.user_name
  pub local_port : t.local_port ≡ new.local_port
  pub remark : t.remark ≡ new.remark
  pub enabled : t.enabled ≡ new.enabled

-- the memory after a write of one tunnel under a key, which is also in the file
pub record WritesTunnel (before after : Store) (key : Text) (t : Tunnel) : Type 0 where
  pub here :
      (k : Text) → lookup k after.tunnels ≡ (if key == k then some t else lookup k before.tunnels)
  pub users : after.users ≡ before.users
  pub nodes : after.nodes ≡ before.nodes
  pub file : after.file ≡ saved after.db

saving-ok :
    {A : Type 0} (env : Env) (s : Store) (a b : A)
    → (saving env s a).0 ≡ ok b
    → (a ≡ b) × ((saving env s a).1 ≡ record s { file = saved s.db })
unfolding saving save_locked
saving-ok env s a b h = elim (Option-cases env.write) [
  | inl written ↦ (ok-injective (rw written at h), rw written refl)
  | inr (left, failed) ↦ absurd (cc (rw failed at h))
]

-- an answer of a method that tests, writes one tunnel and saves
pub writes_lem :
    (env : Env) (r : Result StoreError Tunnel) (key : Tunnel → Text) (s : Store) (t : Tunnel)
    → (checked r (λ n. saving env (with_tunnels s (insert (key n) n s.tunnels)) n) s).0 ≡ ok t
    → (r ≡ ok t)
      × WritesTunnel s
          (checked r (λ n. saving env (with_tunnels s (insert (key n) n s.tunnels)) n) s).1
          (key t)
          t
writes_lem env (err e) key s t h = absurd (cc h)
writes_lem env (ok n) key s t h =
    let after = with_tunnels s (insert (key n) n s.tunnels) in
    let (same, is) = saving-ok env after n t h in
    (
      ap ok same,
      rw (is, sym same)
          (record {
            here = λ k. lookup-insert (key n) k n s.tunnels;
            users = refl;
            nodes = refl;
            file = refl;
          }),
    )

pub KeepsRequest-prepare_tunnel :
    (new p : Tunnel) → prepare_tunnel new ≡ ok p → KeepsRequest new p × (p.id ≡ new.id)
unfolding prepare_tunnel
KeepsRequest-prepare_tunnel new p h =
    let (domains, _, e) = >>=-eq-ok (domain_error (normalize_domains new.domains)) _ h in
    subst (λ (t : Tunnel). KeepsRequest new t × (t.id ≡ new.id)) (ok-injective e)
      (record { owner = refl; local_port = refl; remark = refl; enabled = refl }, refl)

assign_id-keeps :
    (env : Env) (new p : Tunnel)
    → KeepsRequest new p
    → p.id ≡ new.id
    → KeepsRequest new (assign_id env p) × ((new.id ≡ []) ⊎ ((assign_id env p).id ≡ new.id))
unfolding assign_id
assign_id-keeps env new p k same = elim (Bool-cases (p.id == [])) [
  | inl blank ↦ rw blank (
    record { owner = k.owner; local_port = k.local_port; remark = k.remark; enabled = k.enabled },
    inl (sym same ∙ (eq_iff p.id []).0 blank),
  )
  | inr given ↦ rw given (k, inr same)
]

admit_tunnel-keeps :
    (env : Env) (s : Store) (new t : Tunnel)
    → admit_tunnel env s new ≡ ok t
    → KeepsRequest new t × ((new.id ≡ []) ⊎ (t.id ≡ new.id)) × (t.created_at ≡ env.now)
unfolding admit_tunnel admit_prepared
admit_tunnel-keeps env s new t h =
    let (p, prepared, h1) = >>=-eq-ok (prepare_tunnel new) (admit_prepared env s) h in
    let (_, valid, h2) = >>=-eq-ok (validate_tunnel s.db p []) _ h1 in
    let (is, free) = stamp_new-ok env s (assign_id env p) t h2 in
    let (keeps, same) = KeepsRequest-prepare_tunnel new p prepared in
    let (k, id) = assign_id-keeps env new p keeps same in
    subst
      (λ (x : Tunnel).
        KeepsRequest new x × ((new.id ≡ []) ⊎ (x.id ≡ new.id)) × (x.created_at ≡ env.now))
      (sym is)
      (
        record {
          owner = k.owner;
          local_port = k.local_port;
          remark = k.remark;
          enabled = k.enabled;
        },
        id,
        refl,
      )

-- a new tunnel, made of a request and written
pub record IsCreated (env : Env) (before after : Store) (new t : Tunnel) : Type 0 where
  pub admissible : Admissible before.db t []
  pub keeps : KeepsRequest new t
  pub id : (new.id ≡ []) ⊎ (t.id ≡ new.id)
  pub id_ne : t.id ≢ []
  pub unused : lookup t.id before.tunnels ≡ none
  pub created : t.created_at ≡ env.now
  pub updated : t.updated_at ≡ env.now
  pub writes : WritesTunnel before after t.id t

-- Where CreateTunnel answers a tunnel, the memory and the file hold that tunnel at its id, and all else of
-- the store is as it was. The tunnel has the owner, the local port, the remark and the switch of the request,
-- its id where the request has one, an id that was not in use, and the time of the call. Against the store
-- as it was, the tunnel is admissible: its owner and its node are enabled, its entry is in their pools and
-- not in use, and its owner has room.
pub create_tunnel-IsCreated :
    (env : Env) (s : Store) (new t : Tunnel)
    → (create_tunnel env new s).0 ≡ ok t
    → IsCreated env s (create_tunnel env new s).1 new t
unfolding create_tunnel
create_tunnel-IsCreated env s new t h =
    let (admitted, writes) = writes_lem env (admit_tunnel env s new) (λ n. n.id) s t h in
    let (stored, free) = admit_tunnel-Stored env s new t admitted in
    let (keeps, id, created) = admit_tunnel-keeps env s new t admitted in
    record {
      admissible = (validate_tunnel_iff s.db t []).0 stored.valid;
      keeps = keeps;
      id = id;
      id_ne = stored.id_ne;
      unused = free;
      created = created;
      updated = stored.updated;
      writes = writes;
    }
