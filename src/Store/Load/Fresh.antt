-- ===== src/Store/Load/Fresh.antt =====
-- A store that starts with no file.
use cosmo_nps.Base.{
  ◌≡◌, refl, sym, ◌∙◌, ap, true, false, some, [], ◌∷◌, ok, arith, inl, inr, Bool-cases, ℕ,
  ok-injective, ◌⊎◌,
}
use cosmo_nps.Text.{Text, ◌==◌, eq_iff, eq_refl}
use cosmo_nps.Dict.{lookup, insert}
use cosmo_nps.Core.Env.{Env, absent}
use cosmo_nps.Core.Model.{Node, Database, default_node_id}
use cosmo_nps.Store.Base.{Store}
use cosmo_nps.Store.Load.{empty_db, load, local_node, rewrite, give_token, new_store}
use cosmo_nps.Store.Load.Migrated.{migrated, new_store-migrated}
use cosmo_nps.Store.Invariant.{WellFormed}

-- a database with the one node and no user or tunnel
abbrev pub lone : Node → Database
lone n = record { users = []; nodes = (default_node_id, n) ∷ []; tunnels = [] }

single-named :
    (n : Node)
    → n.id ≡ default_node_id
    → (k : Text) (m : Node) → ((default_node_id == k) ≡ true) ⊎ ((default_node_id == k) ≡ false)
    → lookup k (lone n).nodes ≡ some m
    → m.id ≡ k
unfolding lookup
single-named n named k m (inl here) h =
    let same : n ≡ m = cc (rw here at h) in
    ap (λ (x : Node). x.id) (sym same) ∙ named ∙ (eq_iff default_node_id k).0 here
single-named n named k m (inr there) h = absurd (cc (rw there at h))

lone-WellFormed : (n : Node) → n.id ≡ default_node_id → WellFormed (lone n)
unfolding lookup
lone-WellFormed n named = record {
  default_node = (n, rw (eq_refl default_node_id));
  users_distinct = tt;
  nodes_distinct = (tt, tt);
  tunnels_distinct = tt;
  users_named = λ k u h. cc;
  nodes_named = λ k m h. single-named n named k m (Bool-cases (default_node_id == k)) h;
  tunnels_named = λ k t h. cc;
  owned = λ k t h. cc;
  placed = λ k t h. cc;
  shaped = λ k t h. cc;
  exclusive = λ j k a b h. cc;
}

id-give_token : (env : Env) (i : ℕ) (n : Node) → (give_token env i n).0.id ≡ n.id
unfolding give_token
id-give_token env i n = ground arith

fresh-db :
    (env env2 : Env) → migrated env env2 empty_db ≡ lone (give_token env 1 (local_node env)).0
unfolding rewrite lookup insert
fresh-db env env2 = refl

fresh-id : (env : Env) → (give_token env 1 (local_node env)).0.id ≡ default_node_id
unfolding local_node
fresh-id env = id-give_token env 1 (local_node env)

load-absent : (db : Database) → load absent ≡ ok db → db ≡ empty_db
unfolding load
load-absent db h = sym (ok-injective h)

-- With no file, NewStore gives a store whose invariant holds.
pub new_store-fresh :
    (env env2 : Env) (s : Store) → new_store env env2 absent ≡ ok s → WellFormed s.db
new_store-fresh env env2 s h =
    let (db, loaded, is) = new_store-migrated env env2 absent s h in
    rw (is, load-absent db loaded, fresh-db env env2)
      (lone-WellFormed (give_token env 1 (local_node env)).0 (fresh-id env))
