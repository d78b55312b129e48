-- ===== src/Store/Tunnels/Listing.antt =====
-- What ListTunnels lists.
use cosmo_nps.Base.{
  ◌≡◌, sym, subst, ap, refl, ◌≢◌, not, ◌&&◌, some, [], ◌∷◌, arith, inl, inr, Bool-cases, All, Memᴰ,
  keep, mem-keep, ◌↔◌,
}
use cosmo_nps.Text.{Text, ◌==◌, eq_iff}
use cosmo_nps.Text.Order.{sort_by, sort_by-All, mem-sort_by}
use cosmo_nps.Dict.{Dict, lookup, values}
use cosmo_nps.Dict.Laws.{Distinct, Entries, lookup-Entries}
use cosmo_nps.Core.Model.{Tunnel}
use cosmo_nps.Store.Base.{Store}
use cosmo_nps.Store.Tunnels.{select, list_tunnels}

-- a stored tunnel of the user
pub record OwnedBy (name : Text) (m : Dict Tunnel) (t : Tunnel) : Type 0 where
  pub key : Text
  pub stored : lookup key m ≡ some t
  pub owner : t.user_name ≡ name

select-All :
    (name : Text) (P : Tunnel → Type 0) (m : Dict Tunnel)
    → name ≢ []
    → Entries (λ _ t. t.user_name ≡ name → P t) m
    → All P (select name m)
unfolding select
select-All name P [] ne h = tt
select-All name P ((k, t) ∷ m) ne h =
    elim (Bool-cases (not (name == []) && not (t.user_name == name))) [
      | inl other ↦ rw other (select-All name P m ne h.1)
      | inr own ↦ rw own (
        h.0 (ground (arith, eq_iff name [], eq_iff t.user_name name)),
        select-All name P m ne h.1,
      )
    ]

-- ListTunnels of a user lists stored tunnels of that user only.
pub list_tunnels-OwnedBy :
    (s : Store) (name : Text)
    → Distinct s.tunnels
    → name ≢ []
    → All (OwnedBy name s.tunnels) (list_tunnels s name)
unfolding list_tunnels
list_tunnels-OwnedBy s name d ne =
    sort_by-All (λ t. t.id) (OwnedBy name s.tunnels) (select name s.tunnels)
      (select-All name (OwnedBy name s.tunnels) s.tunnels ne (
        lookup-Entries (λ _ t. t.user_name ≡ name → OwnedBy name s.tunnels t) s.tunnels d
          λ k t found own. record { key = k; stored = found; owner = own }))

select-all : (m : Dict Tunnel) → select [] m ≡ values m
unfolding select ◌==◌
select-all [] = refl
select-all ((k, t) ∷ m) = ap (λ ts. t ∷ ts) (select-all m)

-- ListTunnels of no name lists every stored tunnel, in the order of the ids.
pub list_tunnels-all : (s : Store) → list_tunnels s [] ≡ sort_by (λ t. t.id) (values s.tunnels)
unfolding list_tunnels
list_tunnels-all s = ap (sort_by (λ t. t.id)) (select-all s.tunnels)

select-keep :
    (name : Text) (m : Dict Tunnel)
    → name ≢ []
    → select name m ≡ keep (λ t. t.user_name == name) (values m)
unfolding select keep
select-keep name [] ne = refl
select-keep name ((k, t) ∷ m) ne = ground (arith, eq_iff name [], select-keep name m ne)

-- ListTunnels of a user lists exactly the stored tunnels of the user.
pub mem-list_tunnels :
    (s : Store) (name : Text) (t : Tunnel)
    → name ≢ []
    → Memᴰ t (list_tunnels s name) ↔ (Memᴰ t (values s.tunnels) × (t.user_name ≡ name))
unfolding list_tunnels
mem-list_tunnels s name t ne =
    let sorted = mem-sort_by (λ t. t.id) t (select name s.tunnels) in
    let kept = mem-keep (λ (t : Tunnel). t.user_name == name) (values s.tunnels) t in
    let is = select-keep name s.tunnels ne in
    let eq = eq_iff t.user_name name in
    (
      (λ at.
          let (there, own) = kept.0 (subst (λ ts. Memᴰ t ts) is (sorted.0 at)) in
          (there, eq.0 own)),
      λ (there, own). sorted.1 (subst (λ ts. Memᴰ t ts) (sym is) (kept.1 (there, eq.1 own))),
    )
