-- ===== src/Engine/Exits.antt =====
-- The exits of an engine's processes: each is noticed, and an old one does not touch a newer process.
use mathlib.Core.List.{Memᴰ}
use cosmo_nps.Base.{
  ℕ, ◌≡◌, ◌≢◌, ◌⊎◌, false, refl, sym, ap, ◌∙◌, ◌<◌, true, none, some, List, [], ◌∷◌, ℤ, arith, All,
  All-mono, All-at, Bool-cases, inl, inr, nat_eq, nat_eq_iff,
}
use cosmo_nps.Text.{Text, ◌==◌, eq_iff, eq_refl}
use cosmo_nps.Dict.{lookup}
use cosmo_nps.Dict.Laws.{lookup-insert, lookup-delete}
use cosmo_nps.Engine.{Config, Process, Manager, launch, is_process, exit}
use cosmo_nps.Engine.Steps.{Reached, Tracked, reached-Tracked}

-- the exits of some processes, in the order of the list
abbrev pub exit_each : List (Text × ℕ) → Manager → Manager
exit_each [] m = m
exit_each ((name, serial) ∷ rest) m = exit_each rest (exit name serial m)

exit-empties :
    (name : Text) (p : Process) (m : Manager)
    → lookup name m.procs ≡ some p
    → lookup name (exit name p.serial m).procs ≡ none
unfolding exit
exit-empties name p m on =
    let mine : is_process p.serial (lookup name m.procs) ≡ true =
      ap (is_process p.serial) on ∙ (nat_eq_iff p.serial p.serial).1 refl in
    rw (mine, lookup-delete, eq_refl name) refl

exit-others :
    (name other : Text) (serial : ℕ) (m : Manager)
    → name ≢ other
    → lookup other (exit name serial m).procs ≡ lookup other m.procs
unfolding exit
exit-others name other serial m apart =
    elim (Bool-cases (is_process serial (lookup name m.procs))) [
      | inl mine ↦
          let off : name == other ≡ false = ground (arith, eq_iff name other) in
          rw (mine, lookup-delete, off) refl
      | inr gone ↦ rw gone refl
    ]

-- In every state that is reached, some goroutine waits for the process of a name. When the process has
-- exited and that goroutine notices it, the name has no process, and every other name has what it had.
pub exit-noticed :
    (c : Config) (m : Manager) (name : Text) (p : Process)
    → Reached c m
    → lookup name m.procs ≡ some p
    → Memᴰ (name, p.serial) m.waiting
      × (lookup name (exit name p.serial m).procs ≡ none)
      × ((other : Text)
          → (name ≡ other) ⊎ (lookup other (exit name p.serial m).procs ≡ lookup other m.procs))
exit-noticed c m name p r on = (
  (reached-Tracked c m r).watched name p on,
  exit-empties name p m on,
  λ other. elim (Bool-cases (name == other)) [
    | inl same ↦ inl ((eq_iff name other).0 same)
    | inr apart ↦ inr (exit-others name other p.serial m (λ e. ground (arith, eq_iff name other)))
  ],
)

-- the exit of an older process
exit-keeps :
    (name asked : Text) (serial : ℕ) (p : Process) (m : Manager)
    → serial < p.serial
    → lookup name m.procs ≡ some p
    → lookup name (exit asked serial m).procs ≡ some p
unfolding exit
exit-keeps name asked serial p m old on =
    elim (Bool-cases (is_process serial (lookup asked m.procs))) [
      | inr other ↦ rw other on
      | inl mine ↦ elim (Bool-cases (asked == name)) [
        | inr apart ↦ rw (mine, lookup-delete, apart) on
        | inl same ↦
            let is : nat_eq p.serial serial ≡ true =
              sym (ap (is_process serial) on)
              ∙ ap (λ k. is_process serial (lookup k m.procs)) (sym ((eq_iff asked name).0 same))
              ∙ mine in
            absurd (omega (arith, (nat_eq_iff p.serial serial).0 is))
      ]
    ]

exit_each-keeps :
    (name : Text) (p : Process) (ws : List (Text × ℕ)) (m : Manager)
    → All (λ w. w.1 < p.serial) ws
    → lookup name m.procs ≡ some p
    → lookup name (exit_each ws m).procs ≡ some p
exit_each-keeps name p [] m h on = on
exit_each-keeps name p ((asked, serial) ∷ ws) m h on =
    exit_each-keeps name p ws (exit asked serial m) h.1 (exit-keeps name asked serial p m h.0 on)

older :
    (m : Manager) (ws : List (Text × ℕ))
    → Tracked m
    → All (λ w. Memᴰ w m.waiting) ws
    → All (λ w. w.1 < m.next) ws
older m ws t h =
    All-mono (λ w. Memᴰ w m.waiting) (λ w. w.1 < m.next) ws
      (λ w at. All-at (λ v. v.1 < m.next) m.waiting w t.past at) h

-- In every state that is reached, a process that is started outlives the later exits, in any order, of
-- processes that were waited for before.
pub launch-outlives_older :
    (c : Config) (m : Manager) (name : Text) (pid : ℤ) (ws : List (Text × ℕ))
    → Reached c m
    → All (λ w. Memᴰ w m.waiting) ws
    → lookup name (exit_each ws (launch name pid m)).procs
      ≡ some (record { serial = m.next; pid = pid })
unfolding launch
launch-outlives_older c m name pid ws r h =
    exit_each-keeps name (record { serial = m.next; pid = pid }) ws (launch name pid m)
      (older m ws (reached-Tracked c m r) h) (rw (lookup-insert, eq_refl name) refl)
