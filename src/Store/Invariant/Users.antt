-- ===== src/Store/Invariant/Users.antt =====
-- Writing a user and removing a user with its tunnels keep the invariant.
use cosmo_nps.Base.{◌≡◌, ◌≢◌, some, [], ◌∷◌, sym, arith, Bool-cases, inl, inr, ◌∙◌}
use cosmo_nps.Text.{Text, ◌==◌, eq_iff}
use cosmo_nps.Dict.{Dict, lookup, insert, delete}
use cosmo_nps.Dict.Laws.{
  lookup-insert-cases, lookup-insert-some, lookup-delete-some, lookup-delete_ne, insert-Distinct,
  delete-Distinct, Distinct, Fresh, lookup-Fresh,
}
use cosmo_nps.Core.Model.{User, Tunnel, Database}
use cosmo_nps.Store.Users.{drop_tunnels}
use cosmo_nps.Store.Invariant.{WellFormed}

pub insert_user-WellFormed :
    (db : Database) (k : Text) (u : User)
    → u.name ≡ k
    → WellFormed db
    → WellFormed (record db { users = insert k u db.users })
insert_user-WellFormed db k u named wf = record {
  default_node = wf.default_node;
  users_distinct = insert-Distinct k u db.users wf.users_distinct;
  nodes_distinct = wf.nodes_distinct;
  tunnels_distinct = wf.tunnels_distinct;
  users_named = λ j v h. elim (lookup-insert-cases k j u v db.users h) [
    | inl (at, is) ↦ rw (← is, ← at) named
    | inr (_, old) ↦ wf.users_named j v old
  ];
  nodes_named = wf.nodes_named;
  tunnels_named = wf.tunnels_named;
  owned = λ j t h.
      let (old, found) = wf.owned j t h in lookup-insert-some k t.user_name u old db.users found;
  placed = wf.placed;
  shaped = wf.shaped;
  exclusive = wf.exclusive;
}

Fresh-drop_tunnels : (k name : Text) (m : Dict Tunnel) → Fresh k m → Fresh k (drop_tunnels name m)
unfolding drop_tunnels
Fresh-drop_tunnels k name [] h = tt
Fresh-drop_tunnels k name ((j, t) ∷ m) h = elim (Bool-cases (t.user_name == name)) [
  | inl hit ↦ rw hit (Fresh-drop_tunnels k name m h.1)
  | inr miss ↦ rw miss (h.0, Fresh-drop_tunnels k name m h.1)
]

pub drop_tunnels-Distinct :
    (name : Text) (m : Dict Tunnel) → Distinct m → Distinct (drop_tunnels name m)
unfolding drop_tunnels
drop_tunnels-Distinct name [] h = tt
drop_tunnels-Distinct name ((k, t) ∷ m) h = elim (Bool-cases (t.user_name == name)) [
  | inl hit ↦ rw hit (drop_tunnels-Distinct name m h.1)
  | inr miss ↦ rw miss (Fresh-drop_tunnels k name m h.0, drop_tunnels-Distinct name m h.1)
]

-- A tunnel that is still there was there, and belongs to another user.
pub lookup-drop_tunnels :
    (k name : Text) (t : Tunnel) (m : Dict Tunnel)
    → Distinct m
    → lookup k (drop_tunnels name m) ≡ some t
    → (lookup k m ≡ some t) × (t.user_name ≢ name)
unfolding drop_tunnels lookup
lookup-drop_tunnels k name t [] d h = absurd (ground arith)
lookup-drop_tunnels k name t ((j, o) ∷ m) d h = elim (Bool-cases (o.user_name == name)) [
  | inl hit ↦
      let (found, ne) = lookup-drop_tunnels k name t m d.1 (ground arith) in
      (ground (arith, eq_iff j k, lookup-Fresh j m d.0), ne)
  | inr miss ↦ elim (Bool-cases (j == k)) [
    | inl here ↦ (ground arith, λ e. ground (arith, eq_iff o.user_name name))
    | inr there ↦
        let (found, ne) = lookup-drop_tunnels k name t m d.1 (ground arith) in (ground arith, ne)
  ]
]

-- Removing a user together with its tunnels keeps the invariant.
pub remove_user-WellFormed :
    (db : Database) (name : Text)
    → WellFormed db
    → WellFormed
        (record db { users = delete name db.users; tunnels = drop_tunnels name db.tunnels })
remove_user-WellFormed db name wf =
    let old = λ (k : Text) (t : Tunnel) (h : lookup k (drop_tunnels name db.tunnels) ≡ some t).
      (lookup-drop_tunnels k name t db.tunnels wf.tunnels_distinct h).0 in
    record {
      default_node = wf.default_node;
      users_distinct = delete-Distinct name db.users wf.users_distinct;
      nodes_distinct = wf.nodes_distinct;
      tunnels_distinct = drop_tunnels-Distinct name db.tunnels wf.tunnels_distinct;
      users_named = λ k u h. wf.users_named k u (lookup-delete-some name k u db.users h);
      nodes_named = wf.nodes_named;
      tunnels_named = λ k t h. wf.tunnels_named k t (old k t h);
      owned = λ k t h.
          let (was, ne) = lookup-drop_tunnels k name t db.tunnels wf.tunnels_distinct h in
          let (u, found) = wf.owned k t was in
          (u, lookup-delete_ne name t.user_name db.users (λ e. ne (sym e)) ∙ found);
      placed = λ k t h. wf.placed k t (old k t h);
      shaped = λ k t h. wf.shaped k t (old k t h);
      exclusive = λ j k a b ha hb. wf.exclusive j k a b (old j a ha) (old k b hb);
    }
