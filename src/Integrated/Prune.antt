-- ===== src/Integrated/Prune.antt =====
-- The last part of SyncNPSState (internal/integrated/engines.go): what is not wanted any more is
-- deleted. A loop goes through the entries that Range gave at its start.
use cosmo_nps.Base.{Bool, not, ◌&&◌, List, [], ◌∷◌, if◌then◌else◌}
use cosmo_nps.Text.{Text, str, ◌==◌}
use cosmo_nps.Text.Scan.{has_prefix}
use cosmo_nps.Core.Domain.{member}
use cosmo_nps.Integrated.Library.{FileClient, FileTask, FileHost, Nps}

abbrev pub managed_prefix : Text
managed_prefix = str "tc:"

-- the name that a client stands for
unfoldable pub client_name : FileClient → Text
client_name c = if c.web_user_name == [] then c.remark else c.web_user_name

-- an entry that the program manages and does not want
unfoldable pub is_left_over : List Text → Text → Bool
is_left_over desired remark = has_prefix remark managed_prefix && not (member remark desired)

unfoldable pub is_unwanted : List Text → Text → Bool
is_unwanted desired name = not (name == []) && not (member name desired)

-- a loop that removes the entries that a test finds
module _ {L X : Type 0} (bad : X → Bool) (remove : X → L → L) where
  unfoldable pub prune_each : List X → L → L
  prune_each [] l = l
  prune_each (x ∷ xs) l = prune_each xs (if bad x then remove x l else l)

module _ {L : Type 0} (nps : Nps L) where
  unfoldable pub remove_task : FileTask → L → L
  remove_task t l =
      nps.del_task t.id
        (if nps.has_bridge l && nps.is_running t.id l then nps.stop_server t.id l else l)

  unfoldable pub prune_tasks : List Text → List FileTask → L → L
  prune_tasks desired = prune_each (λ t. is_left_over desired t.remark) remove_task

  unfoldable pub prune_hosts : List Text → List FileHost → L → L
  prune_hosts desired = prune_each (λ h. is_left_over desired h.remark) (λ h. nps.del_host h.id)

  unfoldable pub remove_client : FileClient → L → L
  remove_client c l =
      nps.del_client c.id (
        nps.del_tunnel_and_host c.id
          (if nps.has_bridge l then nps.del_client_connect c.id l else l))

  unfoldable pub prune_clients : List Text → List FileClient → L → L
  prune_clients desired = prune_each (λ c. is_unwanted desired (client_name c)) remove_client

  -- the three loops
  unfoldable pub prune : List Text → List Text → List Text → L → L
  prune users tasks hosts l =
      let l1 = prune_tasks tasks (nps.tasks l) l in
      let l2 = prune_hosts hosts (nps.hosts l1) l1 in prune_clients users (nps.clients l2) l2
