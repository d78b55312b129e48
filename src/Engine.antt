-- ===== src/Engine.antt =====
-- internal/engine/manager.go: the processes of the two engines, as the control server starts and
-- stops them. A method holds the manager's mutex throughout, the pauses included, so it is one step.
pub mod Steps
pub mod Slots
pub mod Exits
pub mod Answers
use cosmo_nps.Base.{
  ℕ, Bool, true, false, not, ◌&&◌, ◌||◌, Option, none, some, List, [], ◌∷◌, Result, ok, err, ℤ, pos,
  ltb_ℤ, eqb_ℤ, if◌then◌else◌, nat_eq, ◌+◌,
}
use cosmo_nps.Text.{Text, str, ◌==◌}
use cosmo_nps.Dict.{Dict, lookup, insert, delete}

abbrev pub frp : Text
frp = str "frp"

abbrev pub nps : Text
nps = str "nps"

pub record Config : Type 0 where
  pub frps_bin : Text
  pub frps_config : Text
  pub frps_port : ℤ
  pub nps_bin : Text
  pub nps_work_dir : Text
  pub nps_port : ℤ
  pub embedded : Bool

pub record Status : Type 0 where
  pub engine : Text
  pub configured : Bool
  pub running : Bool
  pub pid : ℤ
  pub port : ℤ
  pub port_open : Bool
  pub binary : Text
  pub config_path : Text
  pub work_dir : Text
  pub message : Text

-- what exec.Command is given
pub record Command : Type 0 where
  pub path : Text
  pub args : List Text
  pub dir : Text

-- A started exec.Cmd: `serial` stands for its address, `pid` is Process.Pid.
pub record Process : Type 0 where
  pub serial : ℕ
  pub pid : ℤ

-- `waiting` are the goroutines that wait for a process's exit, with the name and the address that
-- they were started with; `next` is the next address.
pub record Manager : Type 0 where
  pub config : Config
  pub procs : Dict Process
  pub waiting : List (Text × ℕ)
  pub next : ℕ

pub data EngineError : Type 0 where
  embedded_engine unknown_engine : Text → EngineError
  frps_unset nps_unset start_failed kill_failed : EngineError

-- One view of the operating system: which local ports answer, what cmd.Start gives (a process id,
-- none if it fails), whether Process.Kill succeeds, and the functions of path/filepath.
pub record Host : Type 0 where
  pub answers : ℤ → Bool
  pub spawn : Command → Option ℤ
  pub kills : ℕ → Bool
  pub is_windows : Bool
  pub volume_name : Text → Text
  pub is_abs : Text → Bool
  pub dir_of : Text → Text

unfoldable pub new_manager : Config → Manager
new_manager config = record { config = config; procs = []; waiting = []; next = 0 }

abbrev zero_status : Status
zero_status = record {
  engine = [];
  configured = false;
  running = false;
  pid = pos 0;
  port = pos 0;
  port_open = false;
  binary = [];
  config_path = [];
  work_dir = [];
  message = [];
}

-- the message of a known engine: the tail of both cases of baseStatus
with_message : Config → Text → Status → Status
with_message c missing st =
    if c.embedded
    then record st { message = str "embedded in tunnel-control" }
    else if not st.configured
    then record st { message = missing }
    else st

unfoldable pub base_status : Config → Text → Status
unfolding with_message
base_status c name =
    if name == frp
    then with_message c (str "frps binary path is not configured") (record zero_status {
      engine = frp;
      configured = c.embedded || not (c.frps_bin == []);
      port = c.frps_port;
      binary = c.frps_bin;
      config_path = c.frps_config;
    })
    else if name == nps
    then with_message c (str "nps binary path is not configured") (record zero_status {
      engine = nps;
      configured = c.embedded || not (c.nps_bin == []);
      port = c.nps_port;
      binary = c.nps_bin;
      work_dir = c.nps_work_dir;
    })
    else record zero_status { engine = name; message = str "unknown engine" }

-- the first part of statusLocked: the manager's own process
with_process : Option Process → Status → Status
with_process none st = st
with_process (some p) st = record st { running = true; pid = p.pid }

-- the second part: an open port counts as running
with_port : Bool → Status → Status
with_port false st = record st { port_open = false }
with_port true st = record st {
  port_open = true;
  running = true;
  message =
      if eqb_ℤ st.pid (pos 0)
      then str "running; process is managed outside this control panel"
      else st.message;
}

unfoldable pub status : Host → Text → Manager → Status
unfolding with_process with_port
status host name m =
    let st = with_process (lookup name m.procs) (base_status m.config name) in
    if ltb_ℤ (pos 0) st.port then with_port (host.answers st.port) st else st

unfoldable pub statuses : Host → Host → Manager → List Status
statuses host later m = status host frp m ∷ status later nps m ∷ []

unfoldable pub work_dir : Host → Text → Text → Text
work_dir host bin configured =
    if not (configured == [])
    then configured
    else if bin == []
    then []
    else if host.is_windows && host.volume_name bin == [] && not (host.is_abs bin)
    then []
    else host.dir_of bin

unfoldable pub command : Host → Config → Text → Result EngineError Command
command host c name =
    if c.embedded
    then err (embedded_engine name)
    else if name == frp
    then if c.frps_bin == []
      then err frps_unset
      else ok (record {
        path = c.frps_bin;
        args = if c.frps_config == [] then [] else str "-c" ∷ c.frps_config ∷ [];
        dir = work_dir host c.frps_bin [];
      })
    else if name == nps
    then if c.nps_bin == []
      then err nps_unset
      else ok (record { path = c.nps_bin; args = []; dir = work_dir host c.nps_bin c.nps_work_dir })
    else err (unknown_engine name)

-- the process that cmd.Start has started, with the goroutine that waits for it
unfoldable pub launch : Text → ℤ → Manager → Manager
launch name pid m = record m {
  procs = insert name (record { serial = m.next; pid = pid }) m.procs;
  waiting = (name, m.next) ∷ m.waiting;
  next = m.next + 1;
}

-- Start behind its first status: the error, or the manager with the new process
unfoldable pub start_command : Host → Text → Manager → Result EngineError Manager
start_command host name m = elim (command host m.config name) [
  | err e ↦ err e
  | ok cmd ↦ elim (host.spawn cmd) [ none ↦ err start_failed | some pid ↦ ok (launch name pid m) ]
]

abbrev pub Answer : Type 0
Answer = Status × Option EngineError × Manager

unfoldable pub launched : Host → Text → Manager → Result EngineError Manager → Answer
launched later name m (err e) = (status later name m, some e, m)
launched later name m (ok new) = (status later name new, none, new)

-- Start(name): `later` is the system's view at the last status
unfoldable pub start : Host → Host → Text → Manager → Answer
start host later name m =
    let st = status host name m in
    if st.running then (st, none, m) else launched later name m (start_command host name m)

unfoldable pub stop : Host → Host → Text → Manager → Answer
stop host later name m = elim (lookup name m.procs) [
  | none ↦ (status later name m, none, m)
  | some p ↦
      let left = record m { procs = delete name m.procs } in
      (status later name left, if host.kills p.serial then none else some kill_failed, left)
]

unfoldable pub drop_waiter : Text → ℕ → List (Text × ℕ) → List (Text × ℕ)
drop_waiter name serial [] = []
drop_waiter name serial ((n, k) ∷ rest) =
    let left = drop_waiter name serial rest in
    if n == name && nat_eq k serial then left else (n, k) ∷ left

abbrev pub is_process : ℕ → Option Process → Bool
is_process serial none = false
is_process serial (some p) = nat_eq p.serial serial

-- the end of the goroutine that waits for the process with the address `serial`
unfoldable pub exit : Text → ℕ → Manager → Manager
exit name serial m = record m {
  procs = if is_process serial (lookup name m.procs) then delete name m.procs else m.procs;
  waiting = drop_waiter name serial m.waiting;
}
