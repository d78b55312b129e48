-- ===== src/Control/Usage/Quota.antt =====
-- The tunnel quota that resourceUsageFor shows and the one that the store enforces.
use cosmo_nps.Base.{
  ◌≡◌, ◌≢◌, refl, subst, sym, ◌∙◌, ap, ℕ, suc, true, some, List, [], ◌∷◌, arith, inl, inr,
  Bool-cases, if◌then◌else◌, ℤ, pos, negsuc, ltb_ℤ, ◌-ℤ◌, ◌<ℤ◌, ◌↔◌, ok,
}
use cosmo_nps.Text.{Text, ◌==◌, eq_iff}
use cosmo_nps.Text.Order.{text_leb, insert_by, sort_by}
use cosmo_nps.Dict.{Dict, lookup, values}
use cosmo_nps.Dict.Laws.{Entries, lookup-Entries}
use cosmo_nps.Core.Model.{User, Node, Tunnel}
use cosmo_nps.Store.Base.{Store}
use cosmo_nps.Store.Rules.{count_user_tunnels, validate_tunnel}
use cosmo_nps.Store.Rules.Exact.{Fits, HasRoom, validate_tunnel_iff}
use cosmo_nps.Store.Tunnels.{list_tunnels}
use cosmo_nps.Store.Tunnels.Listing.{list_tunnels-all}
use cosmo_nps.Store.Invariant.{WellFormed}
use cosmo_nps.Control.Usage.{count_owned, free_count, resource_usage}

count_owned-insert_by :
    (key : Tunnel → Text) (name : Text) (t : Tunnel) (ts : List Tunnel)
    → count_owned name (insert_by key t ts) ≡ count_owned name (t ∷ ts)
unfolding count_owned insert_by
count_owned-insert_by key name t [] = refl
count_owned-insert_by key name t (x ∷ xs) = elim (Bool-cases (text_leb (key t) (key x))) [
  | inl le ↦ rw le refl
  | inr gt ↦ rw gt (ground (arith, count_owned-insert_by key name t xs))
]

count_owned-sort_by :
    (key : Tunnel → Text) (name : Text) (ts : List Tunnel)
    → count_owned name (sort_by key ts) ≡ count_owned name ts
unfolding sort_by count_owned
count_owned-sort_by key name [] = refl
count_owned-sort_by key name (t ∷ ts) =
    count_owned-insert_by key name t (sort_by key ts)
    ∙ (unfold count_owned in
        ap (λ n. if t.user_name == name then suc n else n) (count_owned-sort_by key name ts))

-- tunnels with an id are counted whatever is excepted by the empty id
count_owned-values :
    (name : Text) (m : Dict Tunnel)
    → Entries (λ _ t. t.id ≢ []) m
    → count_owned name (values m) ≡ count_user_tunnels m name []
unfolding count_owned count_user_tunnels
count_owned-values name [] h = refl
count_owned-values name ((k, t) ∷ m) h =
    ground (arith, eq_iff t.id [], count_owned-values name m h.1, h.0)

-- the tunnels in the list of all are those that the store counts for the quota
count_owned-list_tunnels :
    (s : Store) (name : Text)
    → WellFormed s.db
    → count_owned name (list_tunnels s []) ≡ count_user_tunnels s.tunnels name []
count_owned-list_tunnels s name wf =
    ap (count_owned name) (list_tunnels-all s)
    ∙ count_owned-sort_by (λ t. t.id) name (values s.tunnels)
    ∙ count_owned-values name s.tunnels (
        lookup-Entries (λ _ t. t.id ≢ []) s.tunnels wf.tunnels_distinct
          λ k t found blank.
            (wf.tunnels_named k t found).1 (sym (wf.tunnels_named k t found).0 ∙ blank))

free_count-positive :
    (total : ℤ) (used : ℕ)
    → pos 0 <ℤ total
    → (pos 0 <ℤ free_count total (pos used)) ↔ (pos used <ℤ total)
unfolding free_count ◌-ℤ◌
free_count-positive (pos n) used h = (λ k. ground arith, λ k. ground arith)
free_count-positive (negsuc n) used h = absurd (omega arith)

tunnel_free_lem :
    (s : Store) (u : User)
    → WellFormed s.db
    → pos 0 <ℤ u.max_ports
    → (resource_usage (list_tunnels s []) u).tunnel_free
      ≡ free_count u.max_ports (pos (count_user_tunnels s.tunnels u.name []))
unfolding resource_usage
tunnel_free_lem s u wf limited =
    let shown : ltb_ℤ (pos 0) u.max_ports ≡ true = ground arith in
    rw (shown, count_owned-list_tunnels s u.name wf) refl

-- Take a store whose invariant holds, a user with a quota, and a new tunnel of that user that fits: all
-- that the validation asks for but room in the quota is there. The validation lets the tunnel through
-- exactly when the usage that the control server shows for all the store's tunnels has a free tunnel left.
pub resource_usage-quota :
    (s : Store) (new : Tunnel) (u : User) (node : Node)
    → WellFormed s.db
    → lookup new.user_name s.users ≡ some u
    → lookup new.node_id s.nodes ≡ some node
    → Fits s.tunnels u node new []
    → pos 0 <ℤ u.max_ports
    → (validate_tunnel s.db new [] ≡ ok tt)
      ↔ (pos 0 <ℤ (resource_usage (list_tunnels s []) u).tunnel_free)
resource_usage-quota s new u node wf found placed fits limited =
    let count = λ (name : Text). count_user_tunnels s.tunnels name [] in
    let own : new.user_name ≡ u.name = sym (wf.users_named new.user_name u found) in
    let shown = tunnel_free_lem s u wf limited in
    let positive = free_count-positive u.max_ports (count u.name) limited in
    (
      (λ valid.
          let a = (validate_tunnel_iff s.db new []).0 valid in
          let is : a.user ≡ u = cc (sym a.user_found ∙ found) in
          let room : HasRoom s.tunnels u new [] =
            subst (λ (v : User). HasRoom s.tunnels v new []) is a.room in
          rw shown (
            positive.1 (
              subst (λ name. pos (count name) <ℤ u.max_ports) own
                (elim room [
                  | inl none_set ↦ absurd (omega (arith, none_set, limited))
                  | inr left ↦ left
                ])))),
      λ free.
          let left : pos (count u.name) <ℤ u.max_ports = positive.0 (rw shown at free) in
          (validate_tunnel_iff s.db new []).1 (record {
            user = u;
            user_found = found;
            node = node;
            node_found = placed;
            fits = fits;
            room = inr (subst (λ name. pos (count name) <ℤ u.max_ports) (sym own) left);
          }),
    )
