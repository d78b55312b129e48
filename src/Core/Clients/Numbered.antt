-- ===== src/Core/Clients/Numbered.antt =====
-- The clients of the NPS export.
use cosmo_nps.Base.{◌≡◌, ◌≢◌, refl, ℕ, suc, true, List, [], ◌∷◌, arith, inl, inr, Bool-cases, All}
use cosmo_nps.Text.{Text, eq_iff}
use cosmo_nps.Text.Order.{sort_by, sort_by-All}
use cosmo_nps.Core.Model.{User, Time}
use cosmo_nps.Core.Clients.{NpsClient, is_exported, nps_client, nps_clients}

-- the client stands for an enabled user with a key, who satisfies P
pub record StandsFor (P : User → Type 0) (c : NpsClient) : Type 0 where
  pub user : User
  pub chosen : P user
  pub enabled : user.enabled ≡ true
  pub keyed : user.nps_verify_key ≢ []
  pub key : c.verify_key ≡ user.nps_verify_key
  pub name : c.remark ≡ user.name

-- the clients have the numbers behind `id`, and each stands for a user who satisfies P
abbrev pub IsListing : (User → Type 0) → ℕ → List NpsClient → Type 0
IsListing P id [] = Unit
IsListing P id (c ∷ cs) = (c.id ≡ suc id) × StandsFor P c × IsListing P (suc id) cs

module _ (format_time : Time → Text) (P : User → Type 0) where
  nps_clients-IsListing :
      (id : ℕ) (us : List User) → All P us → IsListing P id (nps_clients format_time id us)
  unfolding nps_clients nps_client is_exported
  nps_clients-IsListing id [] h = tt
  nps_clients-IsListing id (u ∷ us) h = elim (Bool-cases (is_exported u)) [
    | inr other ↦ rw (other, is_exported) (nps_clients-IsListing id us h.1)
    | inl chosen ↦
        rw (chosen, is_exported)
          (
            refl,
            record {
              user = u;
              chosen = h.0;
              enabled = ground arith;
              keyed = ground (arith, eq_iff u.nps_verify_key []);
              key = refl;
              name = refl;
            },
            nps_clients-IsListing (suc id) us h.1,
          )
  ]

  -- The exported clients are numbered 2, 3 and so on, and each stands for an enabled user with a key
  -- out of the given users, of which any property that all of them have holds.
  pub export-IsListing :
      (us : List User)
      → All P us
      → IsListing P 1 (nps_clients format_time 1 (sort_by (λ u. u.name) us))
  export-IsListing us h =
      nps_clients-IsListing 1 (sort_by (λ u. u.name) us) (sort_by-All (λ u. u.name) P us h)
