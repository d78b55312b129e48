-- ===== src/Client/Launcher.antt =====
-- The local window of the client program (launcherState of cmd/tunnel-client/launcher.go). A method holds
-- the state's mutex throughout, but for restart and startClient, which are cut into their steps.
pub mod Alone
use cosmo_nps.Base.{
  ℕ, ◌+◌, ◌-◌, Bool, true, false, not, ◌&&◌, ◌||◌, Option, none, some, List, [], ◌∷◌, ◌++◌, Result,
  ok, err, if◌then◌else◌, length, drop, ltb,
}
use cosmo_nps.Text.{Text, str, ◌==◌}
use cosmo_nps.Text.Scan.{trim_space, trim_suffix, contains}
use cosmo_nps.Text.Order.{sort_by}
use cosmo_nps.Core.Domain.{member}
use cosmo_nps.Core.Model.{Tunnel, Time, default_node_id}

pub record LauncherConfig : Type 0 where
  pub control_url : Text
  pub user : Text
  pub password : Text
  pub refresh : Text

-- `cancel` is the number of the run whose context it cancels, none for nil; `cancelled` are the runs
-- whose contexts are cancelled, and `next` is the number of the next run.
pub record LauncherState : Type 0 where
  pub cfg : LauncherConfig
  pub running : Bool
  pub started : Time
  pub logs : List Text
  pub tunnels : List Tunnel
  pub cancel : Option ℕ
  pub cancelled : List ℕ
  pub next : ℕ

-- bad_refresh has the text of ParseDuration's error
pub data LauncherError : Type 0 where
  required saved_required already_running : LauncherError
  bad_refresh : Text → LauncherError

unfoldable pub launcher_error_text : LauncherError → Text
launcher_error_text required = str "server, user and password are required"
launcher_error_text saved_required = str "saved server, user and password are required"
launcher_error_text already_running = str "client is already running"
launcher_error_text (bad_refresh e) = str "invalid refresh interval: " ++ e

abbrev pub log_size : ℕ
log_size = 400

-- the last lines
unfoldable pub cut_logs : List Text → List Text
cut_logs lines = if ltb log_size (length lines) then drop (length lines - log_size) lines else lines

-- appendLocked: `clock` is the time in the form 15:04:05
unfoldable pub append_log : Text → Text → LauncherState → LauncherState
append_log clock raw s =
    let line = trim_space raw in
    if line == []
    then s
    else record s { logs = cut_logs (s.logs ++ ((clock ++ (str " " ++ line)) ∷ [])) }

-- Write of goLogWriter
unfoldable pub log_message : Text → Text
log_message given =
    let msg = trim_suffix (trim_suffix given (str "\n")) (str "\r") in
    if not (contains msg (str "[INFO]"))
      && (not (contains msg (str "[WARN]")) && not (contains msg (str "[ERROR]")))
    then str "[INFO] " ++ msg
    else msg

unfoldable pub node_ids : List Text → List Tunnel → List Text
node_ids seen [] = []
node_ids seen (t ∷ ts) =
    let trimmed = trim_space t.node_id in
    let id = if trimmed == [] then default_node_id else trimmed in
    let rest = node_ids (if member id seen then seen else id ∷ seen) ts in
    if member id seen then rest else id ∷ rest

unfoldable pub active_node_ids : List Tunnel → List Text
active_node_ids ts = sort_by (λ id. id) (node_ids [] ts)

-- the body of start with its blanks trimmed
unfoldable pub start_config : LauncherConfig → LauncherConfig
start_config c = record c {
  control_url = trim_space c.control_url;
  user = trim_space c.user;
  refresh = if c.refresh == [] then str "30s" else c.refresh;
}

abbrev pub is_incomplete : LauncherConfig → Bool
is_incomplete c = c.control_url == [] || (c.user == [] || c.password == [])

-- what is outside: the clock in two forms, and the text of ParseDuration's error, none where it reads the
-- interval
pub record Outside : Type 0 where
  pub now : Time
  pub clock : Text
  pub duration_error : Text → Option Text

-- the state that startClient leaves, with the run that it starts
unfoldable pub started_state : Outside → LauncherConfig → Bool → LauncherState → LauncherState
started_state out cfg clear_logs s =
    append_log out.clock (str "[INFO] launcher: starting Cosmo NPS client...") (record s {
      cancel = some s.next;
      next = s.next + 1;
      cfg = cfg;
      running = true;
      started = out.now;
      tunnels = [];
      logs = if clear_logs then [] else s.logs;
    })

unfoldable pub start_client :
    Outside
    → LauncherConfig
    → Bool
    → LauncherState
    → Result LauncherError (Unit {0}) × LauncherState
start_client out cfg clear_logs s = elim (out.duration_error cfg.refresh) [
  | some e ↦ (err (bad_refresh e), s)
  | none ↦
      if s.running then (err already_running, s) else (ok tt, started_state out cfg clear_logs s)
]

-- the handler start
unfoldable pub start :
    Outside → LauncherConfig → LauncherState → Result LauncherError (Unit {0}) × LauncherState
start out body s =
    let cfg = start_config body in
    if is_incomplete cfg then (err required, s) else start_client out cfg true s

-- a context is cancelled
abbrev pub cancel_run : Option ℕ → LauncherState → LauncherState
cancel_run none s = s
cancel_run (some run) s = record s { cancelled = run ∷ s.cancelled }

-- a run is cancelled where one is running and can be
unfoldable pub cancel_alive : Outside → Text → Option ℕ → Bool → LauncherState → LauncherState
cancel_alive out message none running s = s
cancel_alive out message (some run) running s =
    if running then cancel_run (some run) (append_log out.clock message s) else s

-- the handler stop
unfoldable pub stop : Outside → LauncherState → LauncherState
stop out s =
    cancel_alive out (str "[INFO] launcher: stopping tunnel-client...") s.cancel s.running s

-- the handler restart up to its goroutine, with the configuration that the goroutine starts
unfoldable pub restart :
    Outside → LauncherState → Result LauncherError LauncherConfig × LauncherState
restart out s = if is_incomplete s.cfg then (err saved_required, s) else (
  ok s.cfg,
  cancel_alive out (str "[INFO] launcher: reconnect requested") s.cancel s.running s,
)

-- the end of restart's goroutine, once the old run has stopped or eight seconds have gone by
unfoldable pub reconnect : Outside → LauncherConfig → LauncherState → LauncherState
reconnect out cfg s =
    let (r, s1) = start_client out cfg false s in
    elim r [
      | ok _ ↦ s1
      | err e ↦
          append_log out.clock (str "[ERROR] launcher: reconnect failed: " ++ launcher_error_text e)
            s1
    ]

-- the end of a run: none for no error
unfoldable pub finish : Outside → Option Text → LauncherState → LauncherState
finish out failure s =
    append_log out.clock
      (elim failure [
        | none ↦ str "[INFO] launcher: Cosmo NPS client stopped"
        | some e ↦ str "[ERROR] launcher: Cosmo NPS client exited with error: " ++ e
      ])
      (record s { running = false; cancel = none; tunnels = [] })

-- the handler status: what is shown of the configuration
unfoldable pub shown_config : LauncherState → LauncherConfig
shown_config s = record s.cfg { password = [] }
