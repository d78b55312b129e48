-- ===== src/Store/Invariant.antt =====
-- The invariant of the store: what every sequence of operations keeps.
pub mod Tunnels
pub mod Nodes
pub mod Users
pub mod TunnelSteps
pub mod NodeSteps
pub mod UserSteps
pub mod ExpirySteps
pub mod Runs
use cosmo_nps.Base.{
  ◌≡◌, ◌≢◌, ◌⊎◌, ◌<◌, true, some, [], pos, ◌≤ℤ◌, length, none, Option, ok, err, Result, refl, arith,
}
use cosmo_nps.Text.{Text}
use cosmo_nps.Dict.{lookup}
use cosmo_nps.Dict.Laws.{Distinct}
use cosmo_nps.Core.Domain.{member}
use cosmo_nps.Core.Env.{Env}
use cosmo_nps.Core.Model.{User, Node, Tunnel, Database, default_node_id}
use cosmo_nps.Store.Base.{Store, StoreError, Outcome, saving, save_locked, checked}
use cosmo_nps.Store.Rules.{is_port_mode, is_domain_mode, port_transport, tunnel_node_id}

-- two tunnels listen on one port of one node
pub record SharesPort (a b : Tunnel) : Type 0 where
  pub left_mode : is_port_mode a.mode ≡ true
  pub right_mode : is_port_mode b.mode ≡ true
  pub node : tunnel_node_id a ≡ tunnel_node_id b
  pub port : a.remote_port ≡ b.remote_port
  pub transport : port_transport a.mode ≡ port_transport b.mode

-- two tunnels of one domain mode have a domain in common
pub record SharesDomain (a b : Tunnel) : Type 0 where
  pub domain : Text
  pub left_mode : is_domain_mode a.mode ≡ true
  pub right_mode : is_domain_mode b.mode ≡ true
  pub mode : a.mode ≡ b.mode
  pub left_has : member domain a.domains ≡ true
  pub right_has : member domain b.domains ≡ true

abbrev pub Clashes : Tunnel → Tunnel → Type 0
Clashes a b = SharesPort a b ⊎ SharesDomain a b

-- a tunnel has a local port and an entry of its mode
pub record IsShaped (t : Tunnel) : Type 0 where
  pub local_low : pos 1 ≤ℤ t.local_port
  pub local_high : t.local_port ≤ℤ pos 65535
  pub entry :
      ((is_port_mode t.mode ≡ true) × (pos 1 ≤ℤ t.remote_port))
      ⊎ ((is_domain_mode t.mode ≡ true) × (0 < length t.domains))

pub record WellFormed (db : Database) : Type 0 where
  pub default_node : (n : Node) × (lookup default_node_id db.nodes ≡ some n)
  pub users_distinct : Distinct db.users
  pub nodes_distinct : Distinct db.nodes
  pub tunnels_distinct : Distinct db.tunnels
  -- a record is stored at its own name or id
  pub users_named : (k : Text) (u : User) → lookup k db.users ≡ some u → u.name ≡ k
  pub nodes_named : (k : Text) (n : Node) → lookup k db.nodes ≡ some n → n.id ≡ k
  pub tunnels_named : (k : Text) (t : Tunnel) → lookup k db.tunnels ≡ some t → (t.id ≡ k) × (k ≢ [])
  -- the owner of a tunnel is a user, and its node is a node
  pub owned :
      (k : Text) (t : Tunnel)
      → lookup k db.tunnels ≡ some t
      → (u : User) × (lookup t.user_name db.users ≡ some u)
  pub placed :
      (k : Text) (t : Tunnel)
      → lookup k db.tunnels ≡ some t
      → (n : Node) × (lookup (tunnel_node_id t) db.nodes ≡ some n)
  pub shaped : (k : Text) (t : Tunnel) → lookup k db.tunnels ≡ some t → IsShaped t
  -- no two tunnels share an entry
  pub exclusive :
      (j k : Text) (a b : Tunnel)
      → lookup j db.tunnels ≡ some a
      → lookup k db.tunnels ≡ some b
      → j ≢ k
      → ¬ Clashes a b

-- A step keeps what its change keeps: a refusal changes nothing, and a save, done or failed, leaves
-- the memory alone.
pub checked-keeps :
    {A B : Type 0} (P : Database → Type 0) (r : Result StoreError A) (k : A → Outcome B) (s : Store)
    → P s.db
    → ((a : A) → r ≡ ok a → P (k a).1.db)
    → P (checked r k s).1.db
checked-keeps P (ok a) k s h f = f a refl
checked-keeps P (err e) k s h f = h

pub db-save_locked : (env : Env) (s : Store) → (save_locked env s).1.db ≡ s.db
unfolding save_locked
db-save_locked env s = ground arith

pub db-saving : {A : Type 0} (env : Env) (s : Store) (a : A) → (saving env s a).1.db ≡ s.db
unfolding saving
db-saving env s a = db-save_locked env s

pub saving-WellFormed :
    {A : Type 0} (env : Env) (s : Store) (a : A)
    → WellFormed s.db
    → WellFormed (saving env s a).1.db
saving-WellFormed env s a h = rw (db-saving env s a) h
