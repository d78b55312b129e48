-- ===== src/Store/Invariant/Runs.antt =====
-- Any sequence of calls, each with its own outside: the invariant holds throughout.
use cosmo_nps.Base.{Bool, List, [], ◌∷◌, ℤ}
use cosmo_nps.Text.{Text}
use cosmo_nps.Core.Env.{Env}
use cosmo_nps.Core.Model.{User, Node, Tunnel, Time}
use cosmo_nps.Store.Base.{Store}
use cosmo_nps.Store.Users.{
  ensure_admin, verify_login, set_password, upsert_user, delete_user, reset_user_flow,
}
use cosmo_nps.Store.Users.Expiry.{enforce_user_expiry}
use cosmo_nps.Store.Nodes.{upsert_node, delete_node, update_node_status}
use cosmo_nps.Store.Tunnels.{create_tunnel, update_tunnel, delete_tunnel}
use cosmo_nps.Store.Invariant.{WellFormed}
use cosmo_nps.Store.Invariant.TunnelSteps.{
  create_tunnel-WellFormed, update_tunnel-WellFormed, delete_tunnel-WellFormed,
}
use cosmo_nps.Store.Invariant.NodeSteps.{
  upsert_node-WellFormed, delete_node-step, update_node_status-WellFormed,
}
use cosmo_nps.Store.Invariant.UserSteps.{
  ensure_admin-WellFormed, verify_login-WellFormed, set_password-WellFormed, upsert_user-WellFormed,
  delete_user-WellFormed, reset_user_flow-WellFormed,
}
use cosmo_nps.Store.Invariant.ExpirySteps.{enforce_user_expiry-WellFormed}

-- the methods that change the store
pub data Call : Type 0 where
  ensures_admin : Text → Text → Call
  logs_in : Text → Text → Call
  sets_password : Text → Text → Call
  upserts_user : User → Call
  enforces_expiry : Time → ℤ → Call
  deletes_user : Text → Call
  resets_flow : Text → Call
  upserts_node : Node → Call
  deletes_node : Text → Call
  updates_status : Text → Bool → Text → Call
  creates_tunnel : Tunnel → Call
  updates_tunnel : Text → Tunnel → Call
  deletes_tunnel : Text → Call

pub step : Env → Call → Store → Store
step env (ensures_admin name password) s = (ensure_admin env name password s).1
step env (logs_in name password) s = (verify_login env name password s).1
step env (sets_password name password) s = (set_password env name password s).1
step env (upserts_user u) s = (upsert_user env u s).1
step env (enforces_expiry now retention) s = (enforce_user_expiry env now retention s).1
step env (deletes_user name) s = (delete_user env name s).1
step env (resets_flow name) s = (reset_user_flow env name s).1
step env (upserts_node n) s = (upsert_node env n s).1
step env (deletes_node id) s = (delete_node env id s).1
step env (updates_status id online e) s = (update_node_status env id online e s).1
step env (creates_tunnel t) s = (create_tunnel env t s).1
step env (updates_tunnel id t) s = (update_tunnel env id t s).1
step env (deletes_tunnel id) s = (delete_tunnel env id s).1

pub run : List (Env × Call) → Store → Store
run [] s = s
run ((env, c) ∷ calls) s = run calls (step env c s)

-- Every method, failing or not, keeps the invariant.
pub step-WellFormed :
    (env : Env) (c : Call) (s : Store) → WellFormed s.db → WellFormed (step env c s).db
unfolding step
step-WellFormed env (ensures_admin name password) s wf =
    ensure_admin-WellFormed env s wf name password
step-WellFormed env (logs_in name password) s wf = verify_login-WellFormed env s wf name password
step-WellFormed env (sets_password name password) s wf =
    set_password-WellFormed env s wf name password
step-WellFormed env (upserts_user u) s wf = upsert_user-WellFormed env s wf u
step-WellFormed env (enforces_expiry now retention) s wf =
    enforce_user_expiry-WellFormed env s now retention wf
step-WellFormed env (deletes_user name) s wf = delete_user-WellFormed env s wf name
step-WellFormed env (resets_flow name) s wf = reset_user_flow-WellFormed env s wf name
step-WellFormed env (upserts_node n) s wf = upsert_node-WellFormed env s wf n
step-WellFormed env (deletes_node id) s wf = delete_node-step env s wf id
step-WellFormed env (updates_status id online e) s wf =
    update_node_status-WellFormed env s wf id online e
step-WellFormed env (creates_tunnel t) s wf = create_tunnel-WellFormed env s wf t
step-WellFormed env (updates_tunnel id t) s wf = update_tunnel-WellFormed env s wf id t
step-WellFormed env (deletes_tunnel id) s wf = delete_tunnel-WellFormed env s wf id

-- If the invariant of a store holds, it holds after any calls, failing or not: the default node is
-- there, every tunnel has an existing owner and an existing node, is stored at its own id, has a
-- local port and an entry, and no two tunnels share a port of a node or a domain of a mode.
pub run-WellFormed :
    (calls : List (Env × Call)) (s : Store) → WellFormed s.db → WellFormed (run calls s).db
unfolding run
run-WellFormed [] s wf = wf
run-WellFormed ((env, c) ∷ calls) s wf =
    run-WellFormed calls (step env c s) (step-WellFormed env c s wf)
