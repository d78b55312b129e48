-- ===== src/Control/Tunnels/Isolation.antt =====
-- A user who is no admin changes no tunnel of another user.
use cosmo_nps.Base.{
  ◌≡◌, ◌≢◌, refl, sym, ◌∙◌, ap, Bool, true, false, Option, none, some, List, [], ◌∷◌, ok, err,
  arith, inl, inr, Bool-cases, Option-cases, All, refuse,
}
use cosmo_nps.Text.{Text, ◌==◌, eq_iff}
use cosmo_nps.Dict.{lookup}
use cosmo_nps.Dict.Laws.{lookup-insert, lookup-delete}
use cosmo_nps.Core.Env.{Env}
use cosmo_nps.Core.Model.{User, Tunnel}
use cosmo_nps.Store.Base.{Store, tunnel_id_required}
use cosmo_nps.Store.Tunnels.{
  list_tunnels, create_tunnel, update_tunnel, delete_tunnel, admit_tunnel, admit_update,
}
use cosmo_nps.Store.Tunnels.Admission.{admit_tunnel-Stored}
use cosmo_nps.Store.Tunnels.Listing.{OwnedBy, list_tunnels-OwnedBy}
use cosmo_nps.Store.Invariant.{WellFormed, db-saving, checked-keeps}
use cosmo_nps.Control.Sessions.{Server, Reply, is_admin, replying}
use cosmo_nps.Control.Tunnels.{
  has_id, on_behalf, may_change, after_sync, create_handler, path_id, update_at, update_handler,
  delete_at, delete_handler,
}

has_id-All :
    (P : Tunnel → Type 0) (id : Text) (ts : List Tunnel)
    → All P ts
    → has_id id ts ≡ true
    → (t : Tunnel) × (t.id ≡ id) × P t
unfolding has_id
has_id-All P id [] h e = cc
has_id-All P id (t ∷ ts) h e = elim (Bool-cases (t.id == id)) [
  | inl same ↦ (t, (eq_iff t.id id).0 same, h.0)
  | inr other ↦ has_id-All P id ts h.1 (rw other at e)
]

-- the handler's reply leaves the store as the method did
store-after_sync :
    {A : Type 0} (synced : Bool) (r : Reply A) → (after_sync synced r).1.store ≡ r.1.store
unfolding after_sync
store-after_sync synced (ok x, a) = ground arith
store-after_sync synced (err e, a) = refl

-- the stored tunnel at an id that a user who is no admin may change is the user's own
owned_at :
    (user : User) (id : Text) (a : Server) (t : Tunnel)
    → WellFormed a.store.db
    → is_admin (some user) ≡ false
    → user.name ≢ []
    → may_change user id a ≡ true
    → lookup id a.store.tunnels ≡ some t
    → t.user_name ≡ user.name
unfolding may_change
owned_at user id a t wf plain named may found =
    let listed : has_id id (list_tunnels a.store user.name) ≡ true = ground arith in
    let (own, at_id, o) =
      has_id-All (OwnedBy user.name a.store.tunnels) id (list_tunnels a.store user.name)
        (list_tunnels-OwnedBy a.store user.name wf.tunnels_distinct named) listed in
    let here : o.key ≡ id = sym (wf.tunnels_named o.key own o.stored).0 ∙ at_id in
    let same : some own ≡ some t = sym o.stored ∙ ap (λ k. lookup k a.store.tunnels) here ∙ found in
    let is : own ≡ t = cc same in ap (λ (x : Tunnel). x.user_name) (sym is) ∙ o.owner

create_tunnel-keeps :
    (env : Env) (new : Tunnel) (s : Store) (k : Text) (t : Tunnel)
    → lookup k s.tunnels ≡ some t
    → lookup k (create_tunnel env new s).1.tunnels ≡ some t
unfolding create_tunnel
create_tunnel-keeps env new s k t found =
    checked-keeps (λ db. lookup k db.tunnels ≡ some t) (admit_tunnel env s new) _ s found
      λ n admitted.
        let fresh = (admit_tunnel-Stored env s new n admitted).1 in
        rw (db-saving, lookup-insert)
          (elim (Bool-cases (n.id == k)) [
            | inl same ↦
                absurd (cc (fresh, ap (λ i. lookup i s.tunnels) ((eq_iff n.id k).0 same), found))
            | inr other ↦ rw other found
          ])

update_tunnel-others :
    (env : Env) (id : Text) (new : Tunnel) (s : Store) (k : Text)
    → (id == k) ≡ false
    → lookup k (update_tunnel env id new s).1.tunnels ≡ lookup k s.tunnels
unfolding update_tunnel
update_tunnel-others env id new s k other =
    checked-keeps (λ db. lookup k db.tunnels ≡ lookup k s.tunnels) (admit_update env s id new) _ s
      refl λ n _. rw (db-saving, lookup-insert, other) refl

delete_tunnel-others :
    (env : Env) (id : Text) (s : Store) (k : Text)
    → (id == k) ≡ false
    → lookup k (delete_tunnel env id s).1.tunnels ≡ lookup k s.tunnels
unfolding delete_tunnel
delete_tunnel-others env id s k other =
    checked-keeps (λ db. lookup k db.tunnels ≡ lookup k s.tunnels)
      (refuse (id == []) tunnel_id_required) _ s refl
      λ _ _. rw (db-saving, lookup-delete, other) refl

module _ (env : Env) (synced : Bool) (user : User) (a : Server) (wf : WellFormed a.store.db)
    (plain : is_admin (some user) ≡ false) (named : user.name ≢ []) (k : Text) (t : Tunnel)
    (found : lookup k a.store.tunnels ≡ some t) (foreign : t.user_name ≢ user.name) where
  -- another id than one that the user may change
  foreign-id : (id : Text) → may_change user id a ≡ true → (id == k) ≡ false
  foreign-id id may = elim (Bool-cases (id == k)) [
    | inr other ↦ other
    | inl same ↦ absurd (
        foreign (
          owned_at user id a t wf plain named may
            (ap (λ i. lookup i a.store.tunnels) ((eq_iff id k).0 same) ∙ found)))
  ]

  create_handler-keeps :
      (body : Option Tunnel)
      → lookup k (create_handler env synced user body a).1.store.tunnels ≡ some t
  unfolding create_handler replying
  create_handler-keeps none = found
  create_handler-keeps (some req) =
      ap (λ s. lookup k s.tunnels)
        (store-after_sync synced (replying a (create_tunnel env (on_behalf user req) a.store)))
      ∙ create_tunnel-keeps env (on_behalf user req) a.store k t found

  update_at-keeps :
      (id : Text) (body : Option Tunnel)
      → lookup k (update_at env synced user id body a).1.store.tunnels ≡ some t
  unfolding update_at replying
  update_at-keeps id none = found
  update_at-keeps id (some req) = elim (Bool-cases (may_change user id a)) [
    | inr refused ↦ rw refused found
    | inl may ↦
        rw (may, store-after_sync)
          (update_tunnel-others env id (on_behalf user req) a.store k (foreign-id id may) ∙ found)
  ]

  delete_at-keeps : (id : Text) → lookup k (delete_at env synced user id a).1.store.tunnels ≡ some t
  unfolding delete_at replying
  delete_at-keeps id = elim (Bool-cases (may_change user id a)) [
    | inr refused ↦ rw refused found
    | inl may ↦
        rw (may, store-after_sync)
          (delete_tunnel-others env id a.store k (foreign-id id may) ∙ found)
  ]

  -- On a store whose invariant holds, no request to create, change or delete a tunnel, made by a
  -- user with a name who is no admin, touches a stored tunnel of another user.
  pub tunnel_handlers-keep_foreign :
      (path : Text) (body : Option Tunnel)
      → (lookup k (create_handler env synced user body a).1.store.tunnels ≡ some t)
        × (lookup k (update_handler env synced user path body a).1.store.tunnels ≡ some t)
        × (lookup k (delete_handler env synced user path a).1.store.tunnels ≡ some t)
  unfolding update_handler delete_handler
  tunnel_handlers-keep_foreign path body = elim (Option-cases (path_id path)) [
    | inl bad ↦
        (create_handler-keeps body, rw (bad, update_handler) found, rw (bad, delete_handler) found)
    | inr (id, good) ↦ (
      create_handler-keeps body,
      rw (good, update_handler) (update_at-keeps id body),
      rw (good, delete_handler) (delete_at-keeps id),
    )
  ]
