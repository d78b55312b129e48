-- ===== src/Engine/Steps.antt =====
-- The engine manager as a step relation: calls of Start and Stop and the exits of processes in any
-- order, and the invariant of the states that they reach.
use mathlib.Core.List.{Memᴰ}
use cosmo_nps.Base.{
  ℕ, ◌≡◌, ◌⊎◌, inl, inr, refl, sym, ap, ◌∙◌, ◌<◌, ◌+◌, true, false, some, List, [], ◌∷◌, ok, ℤ,
  arith, All, All-mono, Bool-cases, Option-cases, nat_eq, nat_eq_iff, ◌&&◌, Result-cases,
}
use cosmo_nps.Text.{Text, ◌==◌, eq_iff}
use cosmo_nps.Dict.{lookup, delete}
use cosmo_nps.Dict.Laws.{lookup-delete, lookup-delete-some, lookup-insert-cases}
use cosmo_nps.Engine.{
  Config, Command, Process, Manager, Host, frp, nps, new_manager, command, launch, start_command,
  launched, start, stop, drop_waiter, is_process, exit, status,
}

pub data Step : Manager → Manager → Type 0 where
  starts : (host last : Host) (name : Text) (m : Manager) → Step m (start host last name m).2
  stops : (host last : Host) (name : Text) (m : Manager) → Step m (stop host last name m).2
  exits :
      (name : Text) (serial : ℕ) (m : Manager)
      → Memᴰ (name, serial) m.waiting
      → Step m (exit name serial m)

pub data Reached (c : Config) : Manager → Type 0 where
  created : Reached c (new_manager c)
  stepped : {m n : Manager} → Reached c m → Step m n → Reached c n

-- A process of the table has a known name and a goroutine that waits for its exit, and there is none
-- where the engines are embedded. No goroutine waits for an address that is still to come.
pub record Tracked (m : Manager) : Type 0 where
  pub known :
      (name : Text) (p : Process)
      → lookup name m.procs ≡ some p
      → ((name ≡ frp) ⊎ (name ≡ nps)) × (m.config.embedded ≡ false)
  pub watched :
      (name : Text) (p : Process) → lookup name m.procs ≡ some p → Memᴰ (name, p.serial) m.waiting
  pub past : All (λ (w : Text × ℕ). w.1 < m.next) m.waiting

command-known :
    (host : Host) (c : Config) (name : Text) (cmd : Command)
    → command host c name ≡ ok cmd
    → ((name ≡ frp) ⊎ (name ≡ nps)) × (c.embedded ≡ false)
unfolding command
command-known host c name cmd h = ground (arith, eq_iff name frp, eq_iff name nps)

-- a start_command that succeeds has started a known command
pub start_command-ok :
    (host : Host) (name : Text) (m n : Manager)
    → start_command host name m ≡ ok n
    → (cmd : Command) × (pid : ℤ) × (command host m.config name ≡ ok cmd) × (launch name pid m ≡ n)
unfolding start_command
start_command-ok host name m n h = elim (Result-cases (command host m.config name)) [
  | inl (e, bad) ↦ absurd (cc (rw (bad, start_command) at h))
  | inr (cmd, good) ↦ elim (Option-cases (host.spawn cmd)) [
    | inl failed ↦ absurd (cc (rw (good, failed, start_command) at h))
    | inr (pid, up) ↦ (cmd, pid, good, cc (rw (good, up, start_command) at h))
  ]
]

-- the table and the goroutines after Start: as before, or with a new process
pub start-cases :
    (host last : Host) (name : Text) (m : Manager)
    → ((start host last name m).2 ≡ m)
      ⊎ ((pid : ℤ) × (cmd : Command) × (command host m.config name ≡ ok cmd)
          × ((status host name m).running ≡ false)
          × ((start host last name m).2 ≡ launch name pid m))
unfolding start launched
start-cases host last name m = elim (Bool-cases (status host name m).running) [
  | inl up ↦ inl (rw up refl)
  | inr down ↦ elim (Result-cases (start_command host name m)) [
    | inl (e, bad) ↦ inl (rw (down, bad) refl)
    | inr (n, good) ↦
        let (cmd, pid, known, is) = start_command-ok host name m n good in
        inr (pid, cmd, known, down, rw (down, good) (sym is))
  ]
]

pub stop-cases :
    (host last : Host) (name : Text) (m : Manager)
    → ((stop host last name m).2 ≡ m)
      ⊎ ((stop host last name m).2 ≡ record m { procs = delete name m.procs })
unfolding stop
stop-cases host last name m = elim (Option-cases (lookup name m.procs)) [
  | inl off ↦ inl (rw (off, stop) refl)
  | inr (p, found) ↦ inr (rw (found, stop) refl)
]

launch-Tracked :
    (name : Text) (pid : ℤ) (m : Manager)
    → ((name ≡ frp) ⊎ (name ≡ nps)) × (m.config.embedded ≡ false)
    → Tracked m
    → Tracked (launch name pid m)
unfolding launch
launch-Tracked name pid m h t = record {
  known = λ k p found. elim (lookup-insert-cases name k _ p m.procs found) [
    | inl (same, _) ↦ rw (← same) h
    | inr (other, old) ↦ t.known k p old
  ];
  watched = λ k p found. elim (lookup-insert-cases name k _ p m.procs found) [
    | inl (same, is) ↦ rw (← same, ← is) (Memᴰ.head refl)
    | inr (other, old) ↦ Memᴰ.tail (t.watched k p old)
  ];
  past = (
    omega arith,
    All-mono (λ w. w.1 < m.next) (λ w. w.1 < m.next + 1) m.waiting (λ w lt. omega arith) t.past,
  );
}

-- a table with one entry less is tracked by what still waits
forget-Tracked :
    (name : Text) (m : Manager) → Tracked m → Tracked (record m { procs = delete name m.procs })
forget-Tracked name m t = record {
  known = λ k p found. t.known k p (lookup-delete-some name k p m.procs found);
  watched = λ k p found. t.watched k p (lookup-delete-some name k p m.procs found);
  past = t.past;
}

drop_waiter-keeps :
    (name k : Text) (serial n : ℕ) (ws : List (Text × ℕ))
    → Memᴰ (k, n) ws
    → ((k ≡ name) × (n ≡ serial)) ⊎ Memᴰ (k, n) (drop_waiter name serial ws)
unfolding drop_waiter
drop_waiter-keeps name k serial n [] h = elim h [ ]
drop_waiter-keeps name k serial n ((j, i) ∷ ws) (Memᴰ.head same) =
    let at : (j ≡ k) × (i ≡ n) = (cc same, cc same) in
    elim (Bool-cases (j == name && nat_eq i serial)) [
      | inl gone ↦ inl (ground (arith, eq_iff j name))
      | inr kept ↦ inr (rw kept (Memᴰ.head same))
    ]
drop_waiter-keeps name k serial n ((j, i) ∷ ws) (Memᴰ.tail h) =
    elim (drop_waiter-keeps name k serial n ws h) [
      | inl gone ↦ inl gone
      | inr kept ↦ elim (Bool-cases (j == name && nat_eq i serial)) [
        | inl dropped ↦ inr (rw dropped kept)
        | inr stays ↦ inr (rw stays (Memᴰ.tail kept))
      ]
    ]

drop_waiter-All :
    (P : Text × ℕ → Type 0) (name : Text) (serial : ℕ) (ws : List (Text × ℕ))
    → All P ws
    → All P (drop_waiter name serial ws)
unfolding drop_waiter
drop_waiter-All P name serial [] h = tt
drop_waiter-All P name serial ((j, i) ∷ ws) h = ground (arith, drop_waiter-All P name serial ws h.1)

-- what an exit leaves in the table was there, and is another process
pub exit-found :
    (name : Text) (serial : ℕ) (m : Manager) (k : Text) (p : Process)
    → lookup k (exit name serial m).procs ≡ some p
    → (lookup k m.procs ≡ some p) × ¬ ((k ≡ name) × (p.serial ≡ serial))
unfolding exit
exit-found name serial m k p found = elim (Bool-cases (is_process serial (lookup name m.procs))) [
  | inl mine ↦
      let left : lookup k (delete name m.procs) ≡ some p = rw (mine, exit) at found in
      (
        lookup-delete-some name k p m.procs left,
        λ same. ground (arith, lookup-delete name k m.procs, eq_iff name k),
      )
  | inr other ↦
      let old : lookup k m.procs ≡ some p = rw (other, exit) at found in
      (
        old,
        λ same.
            let mine : is_process serial (lookup name m.procs) ≡ true =
              ap (λ j. is_process serial (lookup j m.procs)) (sym same.0)
              ∙ ap (is_process serial) old
              ∙ (nat_eq_iff p.serial serial).1 same.1 in
            cc (mine, other),
      )
]

exit-Tracked : (name : Text) (serial : ℕ) (m : Manager) → Tracked m → Tracked (exit name serial m)
unfolding exit
exit-Tracked name serial m t = record {
  known = λ k p found. t.known k p (exit-found name serial m k p found).0;
  watched = λ k p found.
      let (old, other) = exit-found name serial m k p found in
      elim (drop_waiter-keeps name k serial p.serial m.waiting (t.watched k p old)) [
        | inl gone ↦ absurd (other gone)
        | inr kept ↦ kept
      ];
  past = drop_waiter-All (λ w. w.1 < m.next) name serial m.waiting t.past;
}

start-Tracked :
    (host last : Host) (name : Text) (m : Manager) → Tracked m → Tracked (start host last name m).2
start-Tracked host last name m t = elim (start-cases host last name m) [
  | inl same ↦ rw same t
  | inr (pid, cmd, good, _, is) ↦
      rw is (launch-Tracked name pid m (command-known host m.config name cmd good) t)
]

stop-Tracked :
    (host last : Host) (name : Text) (m : Manager) → Tracked m → Tracked (stop host last name m).2
stop-Tracked host last name m t = elim (stop-cases host last name m) [
  | inl same ↦ rw same t
  | inr is ↦ rw is (forget-Tracked name m t)
]

Step-Tracked : (m n : Manager) → Step m n → Tracked m → Tracked n
Step-Tracked m n (starts host last name _) t = start-Tracked host last name m t
Step-Tracked m n (stops host last name _) t = stop-Tracked host last name m t
Step-Tracked m n (exits name serial _ _) t = exit-Tracked name serial m t

-- In every state that calls of Start and Stop and exits of processes reach from a new manager: a
-- process of the table has the name of an engine, a goroutine waits for its exit, and there is none
-- where the engines are embedded.
pub reached-Tracked : (c : Config) (m : Manager) → Reached c m → Tracked m
unfolding new_manager lookup
reached-Tracked c m created = record {
  known = λ _ _ h. absurd (cc h);
  watched = λ _ _ h. absurd (cc h);
  past = tt;
}
reached-Tracked c m (stepped {m = n} r s) = Step-Tracked n m s (reached-Tracked c n r)
