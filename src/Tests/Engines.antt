-- ===== src/Tests/Engines.antt =====
-- The engine manager on a concrete system: frps is configured, and port 7000 is silent.
use mathlib.Core.List.{Memᴰ}
use cosmo_nps.Base.{◌⊎◌, ◌≡◌, refl, true, false, none, some, [], ◌∷◌, pos}
use cosmo_nps.Text.{Text, str, ◌==◌}
use cosmo_nps.Dict.{lookup, insert}
use cosmo_nps.Engine.{
  Config, Host, Manager, EngineError, frp, nps, new_manager, start, stop, status, base_status,
  command, start_command, launched, launch, exit,
}
use cosmo_nps.Engine.Steps.{Reached, created, stepped, starts, stops, Tracked, reached-Tracked}
use cosmo_nps.Engine.Slots.{SlotStep, slot, Step-SlotStep}
use cosmo_nps.Engine.Exits.{exit_each, exit-noticed, launch-outlives_older}
use cosmo_nps.Engine.Answers.{IsStartAnswer, start-IsStartAnswer}

abbrev panel : Config
panel = record {
  frps_bin = str "/opt/frps";
  frps_config = str "/etc/frps.ini";
  frps_port = pos 7000;
  nps_bin = [];
  nps_work_dir = [];
  nps_port = pos 8024;
  embedded = false;
}

abbrev silent : Host
silent = record {
  answers = λ _. false;
  spawn = λ _. some (pos 42);
  kills = λ _. true;
  is_windows = false;
  volume_name = λ _. [];
  is_abs = λ _. true;
  dir_of = λ _. str "/opt";
}

abbrev idle : Manager
idle = new_manager panel

abbrev busy : Manager
busy = (start silent silent frp idle).2

frps_started : lookup frp busy.procs ≡ some (record { serial = 0; pid = pos 42 })
unfolding lookup start status new_manager base_status ◌==◌ str launched start_command command launch
    insert
frps_started = refl

nps_refused : (start silent silent nps busy).1 ≡ some EngineError.nps_unset
unfolding start status lookup new_manager base_status ◌==◌ str launched start_command command launch
    insert
nps_refused = refl

abbrev busy_Reached : Reached panel busy
busy_Reached = stepped created (starts silent silent frp idle)

reached-Tracked_example : Tracked busy
reached-Tracked_example = reached-Tracked panel busy busy_Reached

Step-SlotStep_example : SlotStep 0 (slot frp idle) (slot frp busy)
unfolding new_manager
Step-SlotStep_example = Step-SlotStep idle busy frp (starts silent silent frp idle)

exit-noticed_example :
    Memᴰ (frp, 0) busy.waiting
    × (lookup frp (exit frp 0 busy).procs ≡ none)
    × ((other : Text)
        → (frp ≡ other) ⊎ (lookup other (exit frp 0 busy).procs ≡ lookup other busy.procs))
exit-noticed_example =
    exit-noticed panel busy frp (record { serial = 0; pid = pos 42 }) busy_Reached frps_started

-- frps is stopped and started again before its first exit is noticed
launch-outlives_older_example :
    lookup frp
      (exit_each ((frp, 0) ∷ []) (launch frp (pos 43) (stop silent silent frp busy).2)).procs
    ≡ some (record { serial = 1; pid = pos 43 })
unfolding stop lookup start status new_manager base_status ◌==◌ str launched start_command command
    launch insert
launch-outlives_older_example =
    launch-outlives_older panel (stop silent silent frp busy).2 frp (pos 43) ((frp, 0) ∷ [])
      (stepped busy_Reached (stops silent silent frp busy)) (Memᴰ.head refl, tt)

start-IsStartAnswer_example : IsStartAnswer silent nps busy (start silent silent nps busy)
start-IsStartAnswer_example = start-IsStartAnswer silent silent nps busy
