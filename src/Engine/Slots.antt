-- ===== src/Engine/Slots.antt =====
-- What the engine manager promises for one name: a slot that holds at most one process, which leaves
-- it before another one comes.
use cosmo_nps.Base.{
  ℕ, ◌≡◌, inl, inr, refl, sym, ap, ◌∙◌, Bool, true, false, Option, none, some, ℤ, pos, ltb_ℤ,
  Bool-cases, Option-cases,
}
use cosmo_nps.Text.{Text, ◌==◌, eq_iff}
use cosmo_nps.Dict.{lookup, delete}
use cosmo_nps.Dict.Laws.{lookup-insert, lookup-delete}
use cosmo_nps.Engine.{
  Process, Manager, Host, launch, with_process, with_port, base_status, Status, is_process, exit,
  status,
}
use cosmo_nps.Engine.Steps.{Step, starts, stops, exits, start-cases, stop-cases}

abbrev Slot : Type 0
Slot = Option Process

abbrev pub slot : Text → Manager → Slot
slot name m = lookup name m.procs

-- the specification: a process with a new address enters an empty slot, and the process of a slot
-- leaves it
pub data SlotStep (next : ℕ) : Slot → Slot → Type 0 where
  rests : (s : Slot) → SlotStep next s s
  enters : (pid : ℤ) → SlotStep next none (some (record { serial = next; pid = pid }))
  leaves : (p : Process) → SlotStep next (some p) none

with_port-running :
    (answers : Bool) (st : Status) → st.running ≡ true → (with_port answers st).running ≡ true
unfolding with_port
with_port-running true st h = refl
with_port-running false st h = h

-- a name whose process is in the table counts as running
pub found-running :
    (host : Host) (name : Text) (m : Manager) (p : Process)
    → slot name m ≡ some p
    → (status host name m).running ≡ true
unfolding status with_process
found-running host name m p on =
    let st = with_process (some p) (base_status m.config name) in
    elim (Bool-cases (ltb_ℤ (pos 0) st.port)) [
      | inl listens ↦ rw (on, listens) (with_port-running (host.answers st.port) st refl)
      | inr deaf ↦ rw (on, deaf) refl
    ]

pub down-slot :
    (host : Host) (name : Text) (m : Manager)
    → (status host name m).running ≡ false
    → slot name m ≡ none
down-slot host name m h = elim (Option-cases (lookup name m.procs)) [
  | inl off ↦ off
  | inr (p, on) ↦ absurd (cc (found-running host name m p on, h))
]

launch-SlotStep :
    (asked : Text) (pid : ℤ) (m : Manager) (name : Text)
    → slot asked m ≡ none
    → SlotStep m.next (slot name m) (slot name (launch asked pid m))
unfolding launch
launch-SlotStep asked pid m name off = elim (Bool-cases (asked == name)) [
  | inl same ↦
      rw (lookup-insert, same, ap (λ k. lookup k m.procs) (sym ((eq_iff asked name).0 same)) ∙ off)
        (enters pid)
  | inr other ↦ rw (lookup-insert, other) (rests (slot name m))
]

-- a slot that is emptied, or left alone
forget-SlotStep :
    (next : ℕ) (asked : Text) (m : Manager) (name : Text)
    → SlotStep next (slot name m) (lookup name (delete asked m.procs))
forget-SlotStep next asked m name = elim (Bool-cases (asked == name)) [
  | inr other ↦ rw (lookup-delete, other) (rests (slot name m))
  | inl same ↦ elim (Option-cases (slot name m)) [
    | inl off ↦ rw (lookup-delete, same, off) (rests none)
    | inr (p, on) ↦ rw (lookup-delete, same, on) (leaves p)
  ]
]

-- Every step of the manager, from any state, is for each name a step of the specification.
pub Step-SlotStep :
    (m n : Manager) (name : Text) → Step m n → SlotStep m.next (slot name m) (slot name n)
unfolding exit
Step-SlotStep m n name (starts host last asked _) = elim (start-cases host last asked m) [
  | inl same ↦ rw same (rests (slot name m))
  | inr (pid, _, _, down, is) ↦
      rw is (launch-SlotStep asked pid m name (down-slot host asked m down))
]
Step-SlotStep m n name (stops host last asked _) = elim (stop-cases host last asked m) [
  | inl same ↦ rw same (rests (slot name m))
  | inr is ↦ rw is (forget-SlotStep m.next asked m name)
]
Step-SlotStep m n name (exits asked serial _ _) =
    elim (Bool-cases (is_process serial (lookup asked m.procs))) [
      | inl mine ↦ rw (mine, exit) (forget-SlotStep m.next asked m name)
      | inr other ↦ rw (other, exit) (rests (slot name m))
    ]
