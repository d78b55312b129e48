-- ===== src/Client/Launcher/Alone.antt =====
-- The runs of the client in the window of cmd/tunnel-client/launcher.go: the window's calls and the
-- ends of the runs as steps, in any order.
use cosmo_nps.Base.{
  ℕ, ◌≡◌, refl, sym, ◌∙◌, Bool, true, false, ◌⊎◌, inl, inr, Option, none, some, List, [], ◌∷◌,
  Result, ok, err, if◌then◌else◌, Bool-cases, Memᴰ, nat_eq, arith, length, length-drop,
  Option-cases, ◌≤◌, ◌++◌, ◌-◌,
}
use cosmo_nps.Text.{Text, str, ◌==◌}
use cosmo_nps.Text.Scan.{trim_space}
use cosmo_nps.Client.Launcher.{
  LauncherConfig, LauncherState, LauncherError, Outside, start, stop, restart, reconnect, finish,
  start_client, started_state, append_log, cut_logs, launcher_error_text, cancel_alive,
  already_running, is_incomplete, start_config, log_size,
}

-- `next` becomes a run where the start succeeds
unfoldable pub begin : Result LauncherError (Unit {0}) → ℕ → List ℕ → List ℕ
begin (ok _) next live = next ∷ live
begin (err _) next live = live

unfoldable pub end_run : ℕ → List ℕ → List ℕ
end_run run [] = []
end_run run (x ∷ xs) = let rest = end_run run xs in if nat_eq x run then rest else x ∷ rest

-- `live` are the runs whose goroutines have not ended.
pub data Step (out : Outside) : LauncherState → List ℕ → LauncherState → List ℕ → Type 0 where
  on_start :
      {s : LauncherState} {live : List ℕ} (body : LauncherConfig)
      → Step out s live (start out body s).1 (begin (start out body s).0 s.next live)
  on_stop : {s : LauncherState} {live : List ℕ} → Step out s live (stop out s) live
  on_restart : {s : LauncherState} {live : List ℕ} → Step out s live (restart out s).1 live
  on_reconnect :
      {s : LauncherState} {live : List ℕ} (cfg : LauncherConfig)
      → Step out s live (reconnect out cfg s) (begin (start_client out cfg false s).0 s.next live)
  on_finish :
      {s : LauncherState} {live : List ℕ} (run : ℕ) (failure : Option Text)
      → Memᴰ run live
      → Step out s live (finish out failure s) (end_run run live)

-- No run, or one, which the window can cancel; the log is within its size.
abbrev pub IsAlone : LauncherState → List ℕ → Type 0
IsAlone s live =
    (length s.logs ≤ log_size)
    × (((s.running ≡ false) × (s.cancel ≡ none) × (live ≡ []))
        ⊎ ((run : ℕ) × (s.running ≡ true) × (s.cancel ≡ some run) × (live ≡ run ∷ [])))

cut_logs-bounded : (lines : List Text) → length (cut_logs lines) ≤ log_size
unfolding cut_logs
cut_logs-bounded lines = ground (arith, length-drop (length lines - log_size) lines)

-- A line of the log changes the log only, and keeps it within its size.
append_log-logs :
    (clock raw : Text) (s : LauncherState)
    → length s.logs ≤ log_size
    → (length (append_log clock raw s).logs ≤ log_size)
      × ((append_log clock raw s).running ≡ s.running)
      × ((append_log clock raw s).cancel ≡ s.cancel)
unfolding append_log
append_log-logs clock raw s h = elim (Bool-cases (trim_space raw == [])) [
  | inl blank ↦ rw blank (h, refl, refl)
  | inr line ↦ rw line (cut_logs-bounded _, refl, refl)
]

append_log-IsAlone :
    (clock raw : Text) (s : LauncherState) (live : List ℕ)
    → IsAlone s live
    → IsAlone (append_log clock raw s) live
append_log-IsAlone clock raw s live (short, runs) =
    let (bound, running, cancel) = append_log-logs clock raw s short in
    (
      bound,
      elim runs [
        | inl (off, none_, empty) ↦ inl (running ∙ off, cancel ∙ none_, empty)
        | inr (run, on, some_, one) ↦ inr (run, running ∙ on, cancel ∙ some_, one)
      ],
    )

cleared_bounded :
    (clear_logs : Bool) (lines : List Text)
    → length lines ≤ log_size
    → length (if clear_logs then [] else lines) ≤ log_size
cleared_bounded true lines h = omega arith
cleared_bounded false lines h = h

started_state-IsAlone :
    (out : Outside) (cfg : LauncherConfig) (clear_logs : Bool) (s : LauncherState)
    → length s.logs ≤ log_size
    → IsAlone (started_state out cfg clear_logs s) (s.next ∷ [])
unfolding started_state
started_state-IsAlone out cfg clear_logs s short =
    append_log-IsAlone out.clock _ _ (s.next ∷ [])
      (cleared_bounded clear_logs s.logs short, inr (s.next, refl, refl, refl))

-- the second half of startClient, with the test and the flag apart
started_unless-IsAlone :
    (out : Outside) (cfg : LauncherConfig) (clear_logs running : Bool) (s : LauncherState)
    (live : List ℕ)
    → s.running ≡ running
    → IsAlone s live
    → let r : Result LauncherError (Unit {0}) × LauncherState =
        if running then (err already_running, s) else (ok tt, started_state out cfg clear_logs s) in
      IsAlone r.1 (begin r.0 s.next live)
unfolding begin
started_unless-IsAlone out cfg clear_logs true s live on h = h
started_unless-IsAlone out cfg clear_logs false s live off h = elim h.1 [
  | inl (_, none_, empty) ↦ rw empty (started_state-IsAlone out cfg clear_logs s h.0)
  | inr (run, on, some_, one) ↦ absurd (cc (sym on ∙ off))
]

start_client-IsAlone :
    (out : Outside) (cfg : LauncherConfig) (clear_logs : Bool) (s : LauncherState) (live : List ℕ)
    → IsAlone s live
    → IsAlone
        (start_client out cfg clear_logs s).1
        (begin (start_client out cfg clear_logs s).0 s.next live)
unfolding start_client begin
start_client-IsAlone out cfg clear_logs s live h =
    elim (Option-cases (out.duration_error cfg.refresh)) [
      | inr (e, bad) ↦ rw (bad, start_client) h
      | inl good ↦
          rw (good, start_client)
            (started_unless-IsAlone out cfg clear_logs s.running s live refl h)
    ]

cancel_alive-IsAlone :
    (out : Outside) (message : Text) (cancel : Option ℕ) (running : Bool) (s : LauncherState)
    (live : List ℕ)
    → IsAlone s live
    → IsAlone (cancel_alive out message cancel running s) live
unfolding cancel_alive
cancel_alive-IsAlone out message none running s live h = h
cancel_alive-IsAlone out message (some run) true s live h =
    append_log-IsAlone out.clock message s live h
cancel_alive-IsAlone out message (some run) false s live h = h

restart-IsAlone :
    (out : Outside) (s : LauncherState) (live : List ℕ)
    → IsAlone s live
    → IsAlone (restart out s).1 live
unfolding restart
restart-IsAlone out s live h = elim (Bool-cases (is_incomplete s.cfg)) [
  | inl missing ↦ rw missing h
  | inr complete ↦ rw complete (cancel_alive-IsAlone out _ s.cancel s.running s live h)
]

-- the end of reconnect, with the outcome of the start
reported-IsAlone :
    (clock : Text) (r : Result LauncherError (Unit {0})) (s : LauncherState) (live : List ℕ)
    → IsAlone s live
    → IsAlone
        (elim r [
          | ok _ ↦ s
          | err e ↦
              append_log clock
                (str "[ERROR] launcher: reconnect failed: " ++ launcher_error_text e)
                s
        ])
        live
reported-IsAlone clock (ok _) s live h = h
reported-IsAlone clock (err e) s live h = append_log-IsAlone clock _ s live h

reconnect-IsAlone :
    (out : Outside) (cfg : LauncherConfig) (s : LauncherState) (live : List ℕ)
    → IsAlone s live
    → IsAlone (reconnect out cfg s) (begin (start_client out cfg false s).0 s.next live)
unfolding reconnect
reconnect-IsAlone out cfg s live h =
    reported-IsAlone out.clock (start_client out cfg false s).0 (start_client out cfg false s).1
      (begin (start_client out cfg false s).0 s.next live)
      (start_client-IsAlone out cfg false s live h)

start-IsAlone :
    (out : Outside) (body : LauncherConfig) (s : LauncherState) (live : List ℕ)
    → IsAlone s live
    → IsAlone (start out body s).1 (begin (start out body s).0 s.next live)
unfolding start begin
start-IsAlone out body s live h = elim (Bool-cases (is_incomplete (start_config body))) [
  | inl missing ↦ rw missing h
  | inr complete ↦ rw complete (start_client-IsAlone out (start_config body) true s live h)
]

-- the end of the one run
end_run_alone : (run other : ℕ) → Memᴰ run (other ∷ []) → end_run run (other ∷ []) ≡ []
unfolding end_run
end_run_alone run other (Memᴰ.head same) = ground arith
end_run_alone run other (Memᴰ.tail at) = elim at [ ]

finish-IsAlone :
    (out : Outside) (run : ℕ) (failure : Option Text) (s : LauncherState) (live : List ℕ)
    → Memᴰ run live
    → IsAlone s live
    → IsAlone (finish out failure s) (end_run run live)
unfolding finish
finish-IsAlone out run failure s live at h = append_log-IsAlone out.clock _ _ (end_run run live) (
  h.0,
  inl (
    refl,
    refl,
    elim h.1 [
      | inl (_, _, empty) ↦ elim (rw empty at at) [ ]
      | inr (other, _, _, one) ↦ rw one (end_run_alone run other (rw one at at))
    ],
  ),
)

-- Take a state in which either no run of the client is alive and the window shows none as running, or one
-- run is alive, which the window shows and can cancel, and in which the log holds at most 400 lines. Any
-- call of start, stop, restart, the end of a reconnect, or the end of a run that is alive leaves such a
-- state, with the runs that it began or ended.
pub Step-IsAlone :
    (out : Outside) (s s1 : LauncherState) (live live1 : List ℕ)
    → Step out s live s1 live1
    → IsAlone s live
    → IsAlone s1 live1
unfolding stop
Step-IsAlone out s _ live _ (on_start body) h = start-IsAlone out body s live h
Step-IsAlone out s _ live _ on_stop h = cancel_alive-IsAlone out _ s.cancel s.running s live h
Step-IsAlone out s _ live _ on_restart h = restart-IsAlone out s live h
Step-IsAlone out s _ live _ (on_reconnect cfg) h = reconnect-IsAlone out cfg s live h
Step-IsAlone out s _ live _ (on_finish run failure at) h =
    finish-IsAlone out run failure s live at h
