-- ===== src/Tests/Programs.antt =====
-- The client program on concrete inputs.
use cosmo_nps.Text.Scan.{trim_space}
use cosmo_nps.Text.Order.{sort_by, text_leb}
use cosmo_nps.Base.{inl, arith, none, ◌≡◌, refl, false, [], ◌∷◌, ok, pos, any, ◌||◌}
use cosmo_nps.Text.{Text, str, ◌==◌}
use cosmo_nps.Core.Domain.{member}
use cosmo_nps.Core.Model.{zero_runtime}
use cosmo_nps.Control.Bootstrap.{BootstrapNode, BootstrapResponse, response_for}
use cosmo_nps.Client.{
  ClientState, sync_and_start, count_nps_tunnels, start_node, start_nodes, start_nps_client,
}
use cosmo_nps.Client.Once.{IsOnce, asks_for, sync_and_start-IsOnce, client_ids}
use cosmo_nps.Client.Launcher.{
  LauncherConfig, LauncherState, Outside, start, start_client, start_config,
}
use cosmo_nps.Client.Launcher.Alone.{IsAlone, begin, on_start, Step-IsAlone}
use cosmo_nps.Tests.Data.{alice, shop, web}

abbrev fresh : ClientState
fresh = record { started = []; clients = []; tunnels = [] }

abbrev colon : Text → Text → Text
colon host port = host

abbrev served : BootstrapNode
served = record { id = str "local"; name = str "Local"; runtime = zero_runtime; tunnels = web ∷ [] }

-- an answer that names a node twice
abbrev answer : BootstrapResponse
answer = record (response_for (pos 7) zero_runtime shop alice) {
  nps_verify_key = str "k";
  nodes = served ∷ served ∷ [];
}

starts_one : (sync_and_start colon (ok answer) fresh).1.started ≡ str "local" ∷ []
unfolding sync_and_start start_nodes sort_by text_leb str start_node count_nps_tunnels ◌==◌ member
    start_nps_client
starts_one = refl

sync_and_start-IsOnce_example :
    IsOnce (sync_and_start colon (ok answer) fresh).1
    × (member (str "local") (sync_and_start colon (ok answer) fresh).1.started
        ≡ (false || any (asks_for (str "k") (str "local")) (served ∷ served ∷ [])))
unfolding client_ids any member
sync_and_start-IsOnce_example = sync_and_start-IsOnce colon answer fresh (str "local") (refl, tt)

abbrev clock : Outside
clock = record { now = pos 5; clock = str "10:00:00"; duration_error = λ _. none }

abbrev settings : LauncherConfig
settings = record {
  control_url = str "http://c";
  user = str "alice";
  password = str "p";
  refresh = [];
}

abbrev closed : LauncherState
closed = record {
  cfg = settings;
  running = false;
  started = pos 0;
  logs = [];
  tunnels = [];
  cancel = none;
  cancelled = [];
  next = 4;
}

closed-IsAlone : IsAlone closed []
closed-IsAlone = (omega arith, inl (refl, refl, refl))

begins_four : begin (start clock settings closed).0 4 [] ≡ 4 ∷ []
unfolding begin start ◌==◌ start_config trim_space str start_client
begins_four = refl

Step-IsAlone_example :
    IsAlone (start clock settings closed).1 (begin (start clock settings closed).0 4 [])
Step-IsAlone_example =
    Step-IsAlone clock closed (start clock settings closed).1 []
      (begin (start clock settings closed).0 4 []) (on_start settings) closed-IsAlone
