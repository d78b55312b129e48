-- ===== src/Engine/Answers.antt =====
-- What Start answers, on every branch.
use cosmo_nps.Base.{
  ◌≡◌, ◌⊎◌, inl, inr, refl, sym, Bool-cases, Option-cases, Result-cases, true, false, none, some, ℤ,
  err, ◌∙◌, ap, subst, if◌then◌else◌,
}
use cosmo_nps.Text.{Text, eq_refl}
use cosmo_nps.Dict.{lookup}
use cosmo_nps.Dict.Laws.{lookup-insert}
use cosmo_nps.Engine.{
  Answer, Manager, Host, EngineError, launch, start_command, launched, start, status, command,
  start_failed,
}
use cosmo_nps.Engine.Slots.{found-running, down-slot}
use cosmo_nps.Engine.Steps.{start_command-ok}

start_command-err :
    (host : Host) (name : Text) (m : Manager) (e : EngineError)
    → start_command host name m ≡ err e
    → (command host m.config name ≡ err e) ⊎ (e ≡ start_failed)
unfolding start_command
start_command-err host name m e h = elim (Result-cases (command host m.config name)) [
  | inl (_, bad) ↦ inl (bad ∙ cc (rw (bad, start_command) at h))
  | inr (cmd, good) ↦ elim (Option-cases (host.spawn cmd)) [
    | inl failed ↦ inr (cc (rw (good, failed, start_command) at h))
    | inr (pid, up) ↦ absurd (cc (rw (good, up, start_command) at h))
  ]
]

launch-running :
    (last : Host) (name : Text) (pid : ℤ) (m : Manager)
    → (status last name (launch name pid m)).running ≡ true
unfolding launch
launch-running last name pid m =
    found-running last name (launch name pid m) (record { serial = m.next; pid = pid })
      (rw (lookup-insert, eq_refl name) refl)

-- the answer `a` to Start of `name`, asked of the manager `m`
abbrev pub IsStartAnswer : Host → Text → Manager → Answer → Type 0
IsStartAnswer host name m (st, e, n) =
    ((reason : EngineError) × (e ≡ some reason)
      × (n ≡ m)
      × ((status host name m).running ≡ false)
      × ((command host m.config name ≡ err reason) ⊎ (reason ≡ start_failed)))
    ⊎ ((e ≡ none)
        × (st.running ≡ true)
        × ((n ≡ m) ⊎ ((pid : ℤ) × (lookup name m.procs ≡ none) × (n ≡ launch name pid m))))

launched-IsStartAnswer :
    (host last : Host) (name : Text) (m : Manager)
    → (status host name m).running ≡ false
    → IsStartAnswer host name m (launched last name m (start_command host name m))
unfolding launched
launched-IsStartAnswer host last name m down = elim (Result-cases (start_command host name m)) [
  | inl (e, bad) ↦ rw bad (inl (e, refl, refl, down, start_command-err host name m e bad))
  | inr (n, good) ↦
      let (cmd, pid, known, is) = start_command-ok host name m n good in
      rw (good, ← is)
        (inr (refl, launch-running last name pid m, inr (pid, down-slot host name m down, refl)))
]

-- Start either answers an error, the command's or that it did not come up, and leaves a manager alone
-- under which the engine was not running; or it answers none and a running engine, and the manager is
-- as before or has a new process for the name, which had none.
pub start-IsStartAnswer :
    (host last : Host) (name : Text) (m : Manager)
    → IsStartAnswer host name m (start host last name m)
unfolding start
start-IsStartAnswer host last name m =
    let st = status host name m in
    let rest = launched last name m (start_command host name m) in
    elim (Bool-cases st.running) [
      | inl up ↦
          subst (IsStartAnswer host name m) (ap (λ b. if b then (st, none, m) else rest) (sym up))
            (inr (refl, up, inl refl))
      | inr down ↦
          subst (IsStartAnswer host name m) (ap (λ b. if b then (st, none, m) else rest) (sym down))
            (launched-IsStartAnswer host last name m down)
    ]
