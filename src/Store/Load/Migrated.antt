-- ===== src/Store/Load/Migrated.antt =====
-- The database that NewStore ends with, whether or not a migration had something to do.
use cosmo_nps.Base.{
  ℕ, suc, ◌≡◌, refl, sym, ◌∙◌, ap, Bool, false, ◌||◌, Option, none, some, [], ◌∷◌, ok, err, arith,
  inl, inr, Bool-cases, >>=-eq-ok, ok-injective,
}
use cosmo_nps.Dict.{Dict, lookup}
use cosmo_nps.Core.Env.{Env, File}
use cosmo_nps.Core.Model.{User, Node, Tunnel, Database, default_node_id, Time}
use cosmo_nps.Store.Base.{Store, Outcome}
use cosmo_nps.Store.Invariant.{db-save_locked}
use cosmo_nps.Store.Load.{
  load, with_default, rewrite, give_token, place_tunnel, hash_legacy, migrate_default_node,
  migrate_legacy_passwords, new_store, then_migrate, opened,
}

module _ {V : Type 0} (change : ℕ → V → V × Bool) where
  -- a rewrite that reports no change has changed nothing
  pub rewrite-clean :
      (d : ℕ) (m : Dict V)
      → ((i : ℕ) (v : V) → (change i v).1 ≡ false → (change i v).0 ≡ v)
      → (rewrite change d m).1 ≡ false
      → (rewrite change d m).0 ≡ m
  unfolding rewrite
  rewrite-clean d [] same h = refl
  rewrite-clean d ((k, v) ∷ m) same h =
      cc (same d v (ground arith), rewrite-clean (suc d) m same (ground arith))

place_tunnel-clean :
    (now : Time) (i : ℕ) (t : Tunnel)
    → (place_tunnel now i t).1 ≡ false
    → (place_tunnel now i t).0 ≡ t
unfolding place_tunnel
place_tunnel-clean now i t h = ground arith

give_token-clean :
    (env : Env) (i : ℕ) (n : Node) → (give_token env i n).1 ≡ false → (give_token env i n).0 ≡ n
unfolding give_token
give_token-clean env i n h = ground arith

hash_legacy-clean :
    (env : Env) (i : ℕ) (u : User) → (hash_legacy env i u).1 ≡ false → (hash_legacy env i u).0 ≡ u
unfolding hash_legacy
hash_legacy-clean env i u h = ground arith

with_default-clean :
    (env : Env) (nodes : Dict Node) (o : Option Node)
    → (with_default env nodes o).1 ≡ false
    → (with_default env nodes o).0 ≡ nodes
with_default-clean env nodes none h = absurd (cc h)
with_default-clean env nodes (some n) h = refl

abbrev pub default_nodes : Env → Database → Dict Node
default_nodes env db = (with_default env db.nodes (lookup default_node_id db.nodes)).0

-- the database behind both migrations
abbrev pub migrated : Env → Env → Database → Database
migrated env env2 db = record {
  users = (rewrite (hash_legacy env2) 0 db.users).0;
  nodes = (rewrite (give_token env) 1 (default_nodes env db)).0;
  tunnels = (rewrite (place_tunnel env.now) 0 db.tunnels).0;
}

or3-false : (a b c : Bool) → (a || b || c) ≡ false → (a ≡ false) × (b ≡ false) × (c ≡ false)
or3-false a b c h = ground arith

db-migrate_default_node :
    (env : Env) (s : Store)
    → (migrate_default_node env s).1.db ≡ record (migrated env env s.db) { users = s.users }
unfolding migrate_default_node
db-migrate_default_node env s =
    let added = (with_default env s.nodes (lookup default_node_id s.nodes)).1 in
    let placed = (rewrite (place_tunnel env.now) 0 s.tunnels).1 in
    let given = (rewrite (give_token env) 1 (default_nodes env s.db)).1 in
    elim (Bool-cases (added || placed || given)) [
      | inl dirty ↦ rw dirty (db-save_locked env _)
      | inr clean ↦
          let (a, p, g) = or3-false added placed given clean in
          rw clean (λ i. record {
            users = s.users;
            nodes =
                sym
                  (rewrite-clean (give_token env) 1 (default_nodes env s.db) (give_token-clean env)
                      g
                    ∙ with_default-clean env s.nodes (lookup default_node_id s.nodes) a)
                  i;
            tunnels =
                sym
                  (rewrite-clean (place_tunnel env.now) 0 s.tunnels (place_tunnel-clean env.now) p)
                  i;
          })
    ]

db-migrate_legacy_passwords :
    (env : Env) (s : Store)
    → (migrate_legacy_passwords env s).1.db
      ≡ record s.db { users = (rewrite (hash_legacy env) 0 s.users).0 }
unfolding migrate_legacy_passwords
db-migrate_legacy_passwords env s = elim (Bool-cases (rewrite (hash_legacy env) 0 s.users).1) [
  | inl dirty ↦ rw dirty (db-save_locked env _)
  | inr clean ↦ rw clean (
      ap (λ (m : Dict User). record s.db { users = m })
        (sym (rewrite-clean (hash_legacy env) 0 s.users (hash_legacy-clean env) clean)))
]

opened-db : (o : Outcome Unit) (s : Store) → opened o ≡ ok s → s.db ≡ o.1.db
opened-db (ok _, t) s h = ap (λ (x : Store). x.db) (sym (ok-injective h))
opened-db (err e, t) s h = absurd (cc h)

then_migrate-db :
    (env : Env) (o : Outcome Unit) (s : Store)
    → opened (then_migrate env o) ≡ ok s
    → s.db ≡ (migrate_legacy_passwords env o.1).1.db
then_migrate-db env (ok _, t) s h = opened-db (migrate_legacy_passwords env t) s h
then_migrate-db env (err e, t) s h = absurd (cc h)

-- An opened store holds the loaded database after both migrations.
pub new_store-migrated :
    (env env2 : Env) (file : File) (s : Store)
    → new_store env env2 file ≡ ok s
    → (db : Database) × (load file ≡ ok db) × (s.db ≡ migrated env env2 db)
unfolding new_store
new_store-migrated env env2 file s h =
    let (db, loaded, h') = >>=-eq-ok (load file) _ h in
    let s0 : Store = record { db = db; file = file } in
    (
      db,
      loaded,
      then_migrate-db env2 (migrate_default_node env s0) s h'
          ∙ db-migrate_legacy_passwords env2 (migrate_default_node env s0).1
          ∙ ap (λ (d : Database). record d { users = (rewrite (hash_legacy env2) 0 d.users).0 })
              (db-migrate_default_node env s0),
    )
