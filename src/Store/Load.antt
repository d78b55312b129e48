-- ===== src/Store/Load.antt =====
-- NewStore: load, migrateDefaultNode and migrateLegacyPasswords.
pub mod Migrated
pub mod Fresh
pub mod Reopen
use cosmo_nps.Base.{
  ℕ, suc, ◌+◌, Bool, true, false, not, ◌&&◌, ◌||◌, Option, none, some, List, [], ◌∷◌, Result, ok,
  err, ◌>>=◌, if◌then◌else◌,
}
use cosmo_nps.Text.{Text, str, ◌==◌}
use cosmo_nps.Dict.{Dict, lookup, insert}
use cosmo_nps.Core.Env.{Env, File, absent, unreadable, blank, garbled, saved, random_secret}
use cosmo_nps.Core.Model.{User, Node, Tunnel, Database, zero_node, default_node_id, Time}
use cosmo_nps.Core.Secret.{hash_password}
use cosmo_nps.Store.Base.{
  StoreError, read_failed, bad_json, Store, Outcome, save_locked, saving, with_users, with_nodes,
  with_tunnels,
}

abbrev pub empty_db : Database
empty_db = record { users = []; nodes = []; tunnels = [] }

-- s.load() on the file that is there
unfoldable pub load : File → Result StoreError Database
load absent = ok empty_db
load unreadable = err read_failed
load blank = ok empty_db
load garbled = err bad_json
load (saved db) = ok db

unfoldable pub local_node : Env → Node
local_node env = record zero_node {
  id = default_node_id;
  name = str "Local Node";
  token = random_secret env 0;
  enabled = true;
  frp_enabled = false;
  nps_enabled = true;
  created_at = env.now;
  updated_at = env.now;
}

abbrev pub with_default : Env → Dict Node → Option Node → Dict Node × Bool
with_default env nodes none = (insert default_node_id (local_node env) nodes, true)
with_default env nodes (some _) = (nodes, false)

-- a loop that rewrites some entries of a map, with the number of the next random secret
module _ {V : Type 0} (change : ℕ → V → V × Bool) where
  unfoldable pub rewrite : ℕ → Dict V → Dict V × Bool
  rewrite draw [] = ([], false)
  rewrite draw ((k, v) ∷ m) =
      let (v', dirty) = change draw v in
      let (rest, dirties) = rewrite (suc draw) m in ((k, v') ∷ rest, dirty || dirties)

unfoldable pub place_tunnel : Time → ℕ → Tunnel → Tunnel × Bool
place_tunnel now draw t =
    if t.node_id == []
    then (record t { node_id = default_node_id; updated_at = now }, true)
    else (t, false)

unfoldable pub give_token : Env → ℕ → Node → Node × Bool
give_token env draw n =
    if n.token == []
    then (record n { token = random_secret env draw; updated_at = env.now }, true)
    else (n, false)

unfoldable pub hash_legacy : Env → ℕ → User → User × Bool
hash_legacy env draw u =
    if not (u.password == []) && u.password_hash == []
    then (record u { password_hash = hash_password env draw u.password; password = [] }, true)
    else (u, false)

unfoldable pub migrate_default_node : Env → Store → Outcome Unit
migrate_default_node env s =
    let (nodes, added) = with_default env s.nodes (lookup default_node_id s.nodes) in
    let (tunnels, placed) = rewrite (place_tunnel env.now) 0 s.tunnels in
    let (tokened, given) = rewrite (give_token env) 1 nodes in
    if added || placed || given
    then save_locked env (with_nodes (with_tunnels s tunnels) tokened)
    else (ok tt, s)

unfoldable pub migrate_legacy_passwords : Env → Store → Outcome Unit
migrate_legacy_passwords env s =
    let (users, dirty) = rewrite (hash_legacy env) 0 s.users in
    if dirty then save_locked env (with_users s users) else (ok tt, s)

abbrev pub then_migrate : Env → Outcome Unit → Outcome Unit
then_migrate env (ok _, s) = migrate_legacy_passwords env s
then_migrate env (err e, s) = (err e, s)

abbrev pub opened : Outcome Unit → Result StoreError Store
opened (ok _, s) = ok s
opened (err e, s) = err e

-- NewStore(path) on the file at the path; `env2` is the outside of the second migration
unfoldable pub new_store : Env → Env → File → Result StoreError Store
new_store env env2 file = do
  db ← load file
  opened (then_migrate env2 (migrate_default_node env (record { db = db; file = file })))
