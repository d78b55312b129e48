-- ===== src/Integrated/Pruned.antt =====
-- What is left in NPS after SyncNPSState.
use mathlib.Core.List.Memᴰ
use cosmo_nps.Base.{
  ◌≡◌, sym, ap, ◌∙◌, Bool, true, false, ◌&&◌, List, [], ◌∷◌, Memᴰ, map, inl, inr, Bool-cases, ℤ,
  if◌then◌else◌, subst, All, All-intro,
}
use cosmo_nps.Text.{Text}
use cosmo_nps.Integrated.Library.{FileClient, FileTask, FileHost, Nps}
use cosmo_nps.Integrated.Prune.{
  client_name, is_left_over, is_unwanted, remove_task, prune_each, prune_tasks, prune_hosts,
  remove_client, prune_clients, prune,
}

-- an entry's id and the name that the program knows it by
abbrev pub Mark : Type 0
Mark = ℤ × Text

abbrev pub task_mark : FileTask → Mark
task_mark t = (t.id, t.remark)

abbrev pub host_mark : FileHost → Mark
host_mark h = (h.id, h.remark)

abbrev pub client_mark : FileClient → Mark
client_mark c = (c.id, client_name c)

-- a loop that removes the entries whose names a test finds
module _ {L X : Type 0} (test : Text → Bool) (remove : X → L → L) (items : L → List X)
    (mark : X → Mark)
    (shrinks : (x : X) (l : L) (e : Mark)
      → Memᴰ e (map mark (items (remove x l)))
      → Memᴰ e (map mark (items l)))
    (gone : (x : X) (s : Text) (l : L)
      → ¬ Memᴰ ((mark x).0, s) (map mark (items (remove x l)))) where
  abbrev marks : L → List Mark
  marks l = map mark (items l)

  abbrev bad : X → Bool
  bad x = test (mark x).1

  -- what is left was there before
  prune_each-old :
      (xs : List X) (l : L) (e : Mark)
      → Memᴰ e (marks (prune_each bad remove xs l))
      → Memᴰ e (marks l)
  unfolding prune_each
  prune_each-old [] l e at = at
  prune_each-old (x ∷ xs) l e at = elim (Bool-cases (bad x)) [
    | inl out ↦ shrinks x l e (prune_each-old xs (remove x l) e (rw (out, prune_each) at at))
    | inr stays ↦ prune_each-old xs l e (rw (stays, prune_each) at at)
  ]

  -- and is none of the loop's entries that the test finds
  prune_each-good :
      (xs : List X) (l : L) (x : X)
      → Memᴰ x xs
      → Memᴰ (mark x) (marks (prune_each bad remove xs l))
      → bad x ≡ false
  unfolding prune_each
  prune_each-good [] l x in_ at = elim in_ [ ]
  prune_each-good (y ∷ xs) l x (Memᴰ.tail in_) at = prune_each-good xs _ x in_ at
  prune_each-good (y ∷ xs) l x (Memᴰ.head same) at = elim (Bool-cases (bad y)) [
    | inr stays ↦ ap bad same ∙ stays
    | inl out ↦
        let left = prune_each-old xs (remove y l) (mark x) (rw (out, prune_each) at at) in
        absurd (gone y (mark y).1 l (subst (λ z. Memᴰ (mark z) (marks (remove y l))) same left))
  ]

  -- a loop over all entries leaves none that the test finds
  prune_each-clean :
      (l : L) (e : Mark) → Memᴰ e (marks (prune_each bad remove (items l) l)) → test e.1 ≡ false
  prune_each-clean l e at =
      let (y, in_, is) = Memᴰ.of_map mark (items l) (prune_each-old (items l) l e at) in
      ap (λ (m : Mark). test m.1) (sym is)
      ∙ prune_each-good (items l) l y in_
          (subst (λ m. Memᴰ m (marks (prune_each bad remove (items l) l))) (sym is) at)

module _ {L : Type 0} (nps : Nps L) where
  abbrev pub task_marks : L → List Mark
  task_marks l = map task_mark (nps.tasks l)

  abbrev pub host_marks : L → List Mark
  host_marks l = map host_mark (nps.hosts l)

  abbrev pub client_marks : L → List Mark
  client_marks l = map client_mark (nps.clients l)

  -- no entry has come from the state `l` to the state `l1`
  pub record Shrinks (l l1 : L) : Type 0 where
    pub of_tasks : (e : Mark) → Memᴰ e (task_marks l1) → Memᴰ e (task_marks l)
    pub of_hosts : (e : Mark) → Memᴰ e (host_marks l1) → Memᴰ e (host_marks l)
    pub of_clients : (e : Mark) → Memᴰ e (client_marks l1) → Memᴰ e (client_marks l)

  -- What the code relies on: stopping and deleting bring no entry back, and a deletion takes every
  -- entry of its id away.
  pub record Deletes : Type 0 where
    pub stop_server-Shrinks : (i : ℤ) (l : L) → Shrinks l (nps.stop_server i l)
    pub del_task-Shrinks : (i : ℤ) (l : L) → Shrinks l (nps.del_task i l)
    pub del_host-Shrinks : (i : ℤ) (l : L) → Shrinks l (nps.del_host i l)
    pub del_client-Shrinks : (i : ℤ) (l : L) → Shrinks l (nps.del_client i l)
    pub del_client_connect-Shrinks : (i : ℤ) (l : L) → Shrinks l (nps.del_client_connect i l)
    pub del_tunnel_and_host-Shrinks : (i : ℤ) (l : L) → Shrinks l (nps.del_tunnel_and_host i l)
    pub del_task-gone : (i : ℤ) (s : Text) (l : L) → ¬ Memᴰ (i, s) (task_marks (nps.del_task i l))
    pub del_host-gone : (i : ℤ) (s : Text) (l : L) → ¬ Memᴰ (i, s) (host_marks (nps.del_host i l))
    pub del_client-gone :
        (i : ℤ) (s : Text) (l : L) → ¬ Memᴰ (i, s) (client_marks (nps.del_client i l))

  pub Shrinks-refl : (l : L) → Shrinks l l
  Shrinks-refl l = record { of_tasks = λ e h. h; of_hosts = λ e h. h; of_clients = λ e h. h }

  Shrinks-trans : (a b c : L) → Shrinks a b → Shrinks b c → Shrinks a c
  Shrinks-trans a b c h k = record {
    of_tasks = λ e at. h.of_tasks e (k.of_tasks e at);
    of_hosts = λ e at. h.of_hosts e (k.of_hosts e at);
    of_clients = λ e at. h.of_clients e (k.of_clients e at);
  }

  Shrinks-if : (b : Bool) (l l1 : L) → Shrinks l l1 → Shrinks l (if b then l1 else l)
  Shrinks-if true l l1 h = h
  Shrinks-if false l l1 h = Shrinks-refl l

  module _ {X : Type 0} (bad : X → Bool) (remove : X → L → L)
      (shrinks : (x : X) (l : L) → Shrinks l (remove x l)) where
    prune_each-Shrinks : (xs : List X) (l : L) → Shrinks l (prune_each bad remove xs l)
    unfolding prune_each
    prune_each-Shrinks [] l = Shrinks-refl l
    prune_each-Shrinks (x ∷ xs) l =
        Shrinks-trans l _ _ (Shrinks-if (bad x) l _ (shrinks x l)) (prune_each-Shrinks xs _)

  module _ (deletes : Deletes) where
    remove_task-Shrinks : (t : FileTask) (l : L) → Shrinks l (remove_task nps t l)
    unfolding remove_task
    remove_task-Shrinks t l =
        Shrinks-trans l _ _
          (Shrinks-if (nps.has_bridge l && nps.is_running t.id l) l _
            (deletes.stop_server-Shrinks t.id l))
          (deletes.del_task-Shrinks t.id _)

    remove_client-Shrinks : (c : FileClient) (l : L) → Shrinks l (remove_client nps c l)
    unfolding remove_client
    remove_client-Shrinks c l =
        Shrinks-trans l _ _
          (Shrinks-if (nps.has_bridge l) l _ (deletes.del_client_connect-Shrinks c.id l))
          (Shrinks-trans _ _ _ (deletes.del_tunnel_and_host-Shrinks c.id _)
            (deletes.del_client-Shrinks c.id _))

    prune_hosts-Shrinks :
        (desired : List Text) (hs : List FileHost) (l : L)
        → Shrinks l (prune_hosts nps desired hs l)
    unfolding prune_hosts
    prune_hosts-Shrinks desired =
        prune_each-Shrinks _ (λ h. nps.del_host h.id) (λ h. deletes.del_host-Shrinks h.id)

    prune_clients-Shrinks :
        (desired : List Text) (cs : List FileClient) (l : L)
        → Shrinks l (prune_clients nps desired cs l)
    unfolding prune_clients
    prune_clients-Shrinks desired = prune_each-Shrinks _ (remove_client nps) remove_client-Shrinks

    prune_tasks-clean :
        (desired : List Text) (l : L) (e : Mark)
        → Memᴰ e (task_marks (prune_tasks nps desired (nps.tasks l) l))
        → is_left_over desired e.1 ≡ false
    unfolding prune_tasks remove_task
    prune_tasks-clean desired =
        prune_each-clean (is_left_over desired) (remove_task nps) nps.tasks task_mark
          (λ t l. (remove_task-Shrinks t l).of_tasks) λ t s l. deletes.del_task-gone t.id s _

    prune_hosts-clean :
        (desired : List Text) (l : L) (e : Mark)
        → Memᴰ e (host_marks (prune_hosts nps desired (nps.hosts l) l))
        → is_left_over desired e.1 ≡ false
    unfolding prune_hosts
    prune_hosts-clean desired =
        prune_each-clean (is_left_over desired) (λ h. nps.del_host h.id) nps.hosts host_mark
          (λ h l. (deletes.del_host-Shrinks h.id l).of_hosts) λ h. deletes.del_host-gone h.id

    prune_clients-clean :
        (desired : List Text) (l : L) (e : Mark)
        → Memᴰ e (client_marks (prune_clients nps desired (nps.clients l) l))
        → is_unwanted desired e.1 ≡ false
    unfolding prune_clients remove_client
    prune_clients-clean desired =
        prune_each-clean (is_unwanted desired) (remove_client nps) nps.clients client_mark
          (λ c l. (remove_client-Shrinks c l).of_clients) λ c s l. deletes.del_client-gone c.id s _

    -- behind the three loops no entry is left that they look for
    pub prune-clean :
        (users tasks hosts : List Text) (l : L)
        → All (λ t. is_left_over tasks t.remark ≡ false) (nps.tasks (prune nps users tasks hosts l))
          × All
              (λ h. is_left_over hosts h.remark ≡ false)
              (nps.hosts (prune nps users tasks hosts l))
          × All
              (λ c. is_unwanted users (client_name c) ≡ false)
              (nps.clients (prune nps users tasks hosts l))
    unfolding prune
    prune-clean users tasks hosts l =
        let l1 = prune_tasks nps tasks (nps.tasks l) l in
        let l2 = prune_hosts nps hosts (nps.hosts l1) l1 in
        let l3 = prune_clients nps users (nps.clients l2) l2 in
        let hosts_only = prune_hosts-Shrinks hosts (nps.hosts l1) l1 in
        let clients_only = prune_clients-Shrinks users (nps.clients l2) l2 in
        (
          All-intro _ (nps.tasks l3) (λ t at.
              prune_tasks-clean tasks l (task_mark t)
                (hosts_only.of_tasks _ (clients_only.of_tasks _ (Memᴰ.map task_mark at)))),
          All-intro _ (nps.hosts l3) (λ h at.
              prune_hosts-clean hosts l1 (host_mark h)
                (clients_only.of_hosts _ (Memᴰ.map host_mark at))),
          All-intro _ (nps.clients l3)
              (λ c at. prune_clients-clean users l2 (client_mark c) (Memᴰ.map client_mark at)),
        )
