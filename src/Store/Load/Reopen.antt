-- ===== src/Store/Load/Reopen.antt =====
-- Opening the file of an opened store again.
use cosmo_nps.Base.{
  ℕ, suc, ◌≡◌, ◌≢◌, refl, ◌∙◌, Bool, false, some, List, [], ◌∷◌, ok, arith, inl, inr, Bool-cases,
  Option-cases, ℤ, pos, negsuc,
}
use cosmo_nps.Text.{Text, ◌==◌, eq_iff, eq_refl, str}
use cosmo_nps.Text.Decimal.{itoa, decimal-ne-nil}
use cosmo_nps.Text.Hex.{hex_encode}
use cosmo_nps.Dict.{Dict, lookup}
use cosmo_nps.Dict.Laws.{lookup-insert}
use cosmo_nps.Core.Env.{Env, File, saved, random_secret}
use cosmo_nps.Core.Model.{User, Node, Tunnel, Database, default_node_id, Time}
use cosmo_nps.Store.Base.{Store}
use cosmo_nps.Store.Load.{
  load, local_node, rewrite, give_token, place_tunnel, hash_legacy, migrate_default_node,
  migrate_legacy_passwords, new_store,
}
use cosmo_nps.Store.Load.Migrated.{migrated, default_nodes, new_store-migrated}

-- rand.Read fills the buffer of a secret or fails
abbrev pub FillsSecrets : Env → Type 0
FillsSecrets env = (i : ℕ) (bytes : List ℕ) → env.random i ≡ some bytes → bytes ≢ []

hex_encode-ne_nil : (bytes : List ℕ) → bytes ≢ [] → hex_encode bytes ≢ []
unfolding hex_encode
hex_encode-ne_nil [] h = absurd (h refl)
hex_encode-ne_nil (b ∷ bs) h = λ e. cc

itoa-ne_nil : (n : ℤ) → itoa n ≢ []
unfolding itoa
itoa-ne_nil (pos n) = decimal-ne-nil n
itoa-ne_nil (negsuc n) = λ e. cc

pub random_secret-ne_nil : (env : Env) (i : ℕ) → FillsSecrets env → random_secret env i ≢ []
unfolding random_secret
random_secret-ne_nil env i fills = elim (Option-cases (env.random i)) [
  | inl failed ↦ rw (failed, random_secret) (itoa-ne_nil (env.nanos i))
  | inr (bytes, read) ↦ rw (read, random_secret) (hex_encode-ne_nil bytes (fills i bytes read))
]

module _ {V : Type 0} (change change' : ℕ → V → V × Bool) where
  -- a rewrite of what was rewritten has nothing to do
  rewrite-again :
      (d d' : ℕ) (m : Dict V)
      → ((i j : ℕ) (v : V) → (change' j (change i v).0).1 ≡ false)
      → (rewrite change' d' (rewrite change d m).0).1 ≡ false
  unfolding rewrite
  rewrite-again d d' [] settled = refl
  rewrite-again d d' ((k, v) ∷ m) settled =
      rw (settled d d' v) (rewrite-again (suc d) (suc d') m settled)

module _ {V : Type 0} (change : ℕ → V → V × Bool) where
  -- a rewrite keeps the keys
  lookup-rewrite :
      (d : ℕ) (k : Text) (v : V) (m : Dict V)
      → lookup k m ≡ some v
      → (w : V) × (lookup k (rewrite change d m).0 ≡ some w)
  unfolding rewrite lookup
  lookup-rewrite d k v [] h = absurd (cc h)
  lookup-rewrite d k v ((j, o) ∷ m) h = elim (Bool-cases (j == k)) [
    | inl here ↦ ((change d o).0, rw here)
    | inr there ↦ rw there (lookup-rewrite (suc d) k v m (rw there at h))
  ]

default_node_id-ne_nil : (default_node_id == []) ≡ false
unfolding str ◌==◌
default_node_id-ne_nil = refl

place_tunnel-settled :
    (now now' : Time) (i j : ℕ) (t : Tunnel)
    → (place_tunnel now' j (place_tunnel now i t).0).1 ≡ false
unfolding place_tunnel
place_tunnel-settled now now' i j t = ground (arith, default_node_id-ne_nil)

give_token-settled :
    (env env' : Env)
    → FillsSecrets env
    → (i j : ℕ) (n : Node) → (give_token env' j (give_token env i n).0).1 ≡ false
unfolding give_token
give_token-settled env env' fills i j n = ground (
  arith,
  eq_iff (random_secret env i) [],
  λ (e : random_secret env i ≡ []). random_secret-ne_nil env i fills e,
)

hash_legacy-settled :
    (env env' : Env) (i j : ℕ) (u : User) → (hash_legacy env' j (hash_legacy env i u).0).1 ≡ false
unfolding hash_legacy
hash_legacy-settled env env' i j u = ground (arith, eq_refl [])

default_nodes-has :
    (env : Env) (db : Database)
    → (n : Node) × (lookup default_node_id (default_nodes env db) ≡ some n)
default_nodes-has env db = elim (Option-cases (lookup default_node_id db.nodes)) [
  | inl missing ↦
      rw (missing, default_nodes)
        (
          local_node env,
          lookup-insert default_node_id default_node_id (local_node env) db.nodes
              ∙ rw (eq_refl default_node_id),
        )
  | inr (n, found) ↦ rw (found, default_nodes) (n, found)
]

-- nothing is left to do by the first migration
migrate_default_node-idle :
    (env : Env) (s : Store) (n : Node)
    → lookup default_node_id s.nodes ≡ some n
    → (rewrite (place_tunnel env.now) 0 s.tunnels).1 ≡ false
    → (rewrite (give_token env) 1 s.nodes).1 ≡ false
    → migrate_default_node env s ≡ (ok tt, s)
unfolding migrate_default_node
migrate_default_node-idle env s n found placed given = rw (found, placed, given)

migrate_legacy-idle :
    (env : Env) (s : Store)
    → (rewrite (hash_legacy env) 0 s.users).1 ≡ false
    → migrate_legacy_passwords env s ≡ (ok tt, s)
unfolding migrate_legacy_passwords
migrate_legacy-idle env s clean = rw clean

reopen-migrated :
    (env env2 env3 env4 : Env) (db : Database)
    → FillsSecrets env
    → let m = migrated env env2 db in
      new_store env3 env4 (saved m) ≡ ok (record { db = m; file = saved m })
unfolding new_store load
reopen-migrated env env2 env3 env4 db fills =
    let m = migrated env env2 db in
    let (n, there) = default_nodes-has env db in
    let (n', found) =
      lookup-rewrite (give_token env) 1 default_node_id n (default_nodes env db) there in
    rw (
      migrate_default_node-idle env3 (record { db = m; file = saved m }) n' found
          (rewrite-again (place_tunnel env.now) (place_tunnel env3.now) 0 0 db.tunnels
            (place_tunnel-settled env.now env3.now))
          (rewrite-again (give_token env) (give_token env3) 1 1 (default_nodes env db)
            (give_token-settled env env3 fills)),
      migrate_legacy-idle env4 (record { db = m; file = saved m })
          (rewrite-again (hash_legacy env2) (hash_legacy env4) 0 0 db.users
            (hash_legacy-settled env2 env4)),
    )

-- What NewStore has opened, it opens again unchanged from a file that holds it, if each rand.Read of
-- the first opening failed or gave some bytes: the migrations are done once.
pub new_store-reopen :
    (env env2 env3 env4 : Env) (file : File) (s : Store)
    → FillsSecrets env
    → new_store env env2 file ≡ ok s
    → new_store env3 env4 (saved s.db) ≡ ok (record { db = s.db; file = saved s.db })
new_store-reopen env env2 env3 env4 file s fills h =
    let (db, _, is) = new_store-migrated env env2 file s h in
    rw is (reopen-migrated env env2 env3 env4 db fills)
