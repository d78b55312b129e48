-- ===== src/Store/Invariant/TunnelSteps.antt =====
-- CreateTunnel, UpdateTunnel and DeleteTunnel keep the invariant.
use cosmo_nps.Base.{◌≡◌, ◌≢◌, refl, sym, ◌∙◌, false, some, [], arith, refuse}
use cosmo_nps.Text.{Text, ◌==◌, eq_iff}
use cosmo_nps.Dict.{lookup, insert}
use cosmo_nps.Core.Env.{Env}
use cosmo_nps.Core.Model.{Tunnel}
use cosmo_nps.Store.Base.{Store}
use cosmo_nps.Store.Rules.Sound.{validate-Admitted}
use cosmo_nps.Store.Tunnels.{
  create_tunnel, update_tunnel, delete_tunnel, admit_tunnel, admit_update,
}
use cosmo_nps.Store.Tunnels.Admission.{Stored, admit_tunnel-Stored, admit_update-Stored}
use cosmo_nps.Store.Invariant.{WellFormed, checked-keeps, saving-WellFormed}
use cosmo_nps.Store.Invariant.Tunnels.{insert-WellFormed, delete-WellFormed}

module _ (env : Env) (s : Store) (wf : WellFormed s.db) where
  Stored-WellFormed :
      (t : Tunnel) (ex id : Text)
      → Stored env s t ex
      → t.id ≡ id
      → ((k : Text) (old : Tunnel)
          → lookup k s.tunnels ≡ some old
          → k ≢ id
          → (old.id == ex) ≡ false)
      → WellFormed (record s.db { tunnels = insert id t s.tunnels })
  Stored-WellFormed t ex id st named others =
      insert-WellFormed s.db t ex wf (validate-Admitted s.db t ex st.valid) st.node id
        (λ e. st.id_ne (named ∙ e)) named others

  pub not-eq : (a b : Text) → a ≢ b → (a == b) ≡ false
  not-eq a b h = ground (arith, eq_iff a b)

  pub create_tunnel-WellFormed : (new : Tunnel) → WellFormed (create_tunnel env new s).1.db
  unfolding create_tunnel
  create_tunnel-WellFormed new =
      checked-keeps WellFormed (admit_tunnel env s new) _ s wf λ t admitted.
        let (st, _) = admit_tunnel-Stored env s new t admitted in
        saving-WellFormed env _ t (
          Stored-WellFormed t [] t.id st refl λ k old found _.
            let (named, ne) = wf.tunnels_named k old found in
            not-eq old.id [] (λ e. ne (sym named ∙ e)))

  pub update_tunnel-WellFormed :
      (id : Text) (new : Tunnel) → WellFormed (update_tunnel env id new s).1.db
  unfolding update_tunnel
  update_tunnel-WellFormed id new =
      checked-keeps WellFormed (admit_update env s id new) _ s wf λ t admitted.
        let (st, named) = admit_update-Stored env s id new t admitted in
        saving-WellFormed env _ t (
          Stored-WellFormed t id id st named λ k old found other.
            not-eq old.id id (λ e. other (sym (wf.tunnels_named k old found).0 ∙ e)))

  pub delete_tunnel-WellFormed : (id : Text) → WellFormed (delete_tunnel env id s).1.db
  unfolding delete_tunnel
  delete_tunnel-WellFormed id =
      checked-keeps WellFormed (refuse (id == []) _) _ s wf
        λ _ _. saving-WellFormed env _ tt (delete-WellFormed s.db id wf)
