-- ===== src/Control/Traffic/Quota.antt =====
-- What a traffic report may do, and what it does to a user's quota.
use cosmo_nps.Base.{
  ◌+◌, ◌*◌, ◌^◌, ◌<◌, ◌↔◌, not, ◌&&◌, sym, ◌≡◌, ◌≢◌, ◌⊎◌, refl, ◌∙◌, ℕ, true, false, ◌||◌, Option,
  some, [], ok, subst, arith, inl, inr, Bool-cases, Option-cases, ℤ, pos, ltb_ℤ,
}
use cosmo_nps.Text.{Text, ◌==◌, eq_iff, eq_refl}
use cosmo_nps.Dict.{lookup}
use cosmo_nps.Dict.Laws.{lookup-insert}
use cosmo_nps.Core.Env.{Env}
use cosmo_nps.Core.Model.{User, Node, Time, is_zero, after}
use cosmo_nps.Store.Base.{Store}
use cosmo_nps.Store.Users.{
  get_user, prepare_user, user_or_new, merge_user, settle_expiry, upsert_user,
}
use cosmo_nps.Store.Nodes.{get_node}
use cosmo_nps.Store.Invariant.{WellFormed, db-saving}
use cosmo_nps.Control.Traffic.Counted.{
  Reaches, IsExpired, new_used_lem, over_quota_iff, prepare_user-charged, settle_expiry-cases,
}
use cosmo_nps.Control.Traffic.{
  TrafficReport, Meters, charge, over_quota, count_report, report_traffic, bearer, admit_report,
}

module _ (per_second : ℤ → ℤ → ℤ) where
  -- A report comes with the token, which is not empty, of the node that it names, or it changes
  -- nothing.
  pub report_traffic-guarded :
      (env : ℕ → Env) (now : Time) (header : Text) (body : Option TrafficReport) (a : Meters)
      → ((r : TrafficReport) × (node : Node) × (body ≡ some r)
          × (get_node a.store r.node_id ≡ some node)
          × (node.token ≡ bearer header)
          × (bearer header ≢ []))
        ⊎ ((report_traffic per_second env now header body a).1 ≡ a)
  unfolding report_traffic count_report admit_report
  report_traffic-guarded env now header body a = elim (Bool-cases (bearer header == [])) [
    | inl blank ↦ inr (rw blank refl)
    | inr given ↦ elim (Option-cases body) [
      | inl garbled ↦ inr (rw (given, garbled) refl)
      | inr (r, decoded) ↦ elim (Option-cases (get_node a.store r.node_id)) [
        | inl missing ↦ inr (rw (given, decoded, missing, count_report) refl)
        | inr (node, found) ↦ elim (Bool-cases (node.token == bearer header)) [
          | inr other ↦ inr (rw (given, decoded, found, other, count_report, admit_report) refl)
          | inl same ↦ inl (
            r,
            node,
            decoded,
            found,
            (eq_iff node.token (bearer header)).0 same,
            ground (arith, eq_iff (bearer header) []),
          )
        ]
      ]
    ]
  ]

enabled-settle_expiry :
    (env : Env) (u : User) → u.enabled ≡ false → (settle_expiry env u).enabled ≡ false
unfolding settle_expiry
enabled-settle_expiry env u h = ground arith

flow_used-settle_expiry : (env : Env) (u : User) → (settle_expiry env u).flow_used ≡ u.flow_used
unfolding settle_expiry
flow_used-settle_expiry env u = ground arith

-- a user before and after a charge, with the use and the limit in GiB as natural numbers
pub record IsCharged (env : Env) (u v : User) (used gigabytes : ℕ) : Type 0 where
  pub use_now : v.flow_used ≡ pos used
  pub off : ¬ ((v.enabled ≡ true) × Reaches used gigabytes)
  pub kept : (v.enabled ≡ u.enabled) ⊎ (Reaches used gigabytes ⊎ IsExpired env u)

-- what is stored of a charged user that UpsertUser has accepted and merged
IsCharged_lem :
    (env : Env) (u m : User) (used g : ℕ)
    → m.flow_used ≡ pos used
    → m.enabled ≡ (u.enabled && not (over_quota u (pos used)))
    → m.expires_at ≡ u.expires_at
    → ((over_quota u (pos used) ≡ true) ↔ Reaches used g)
    → IsCharged env u (settle_expiry env m) used g
IsCharged_lem env u m used g total on expires over = record {
  use_now = flow_used-settle_expiry env m ∙ total;
  off = λ (up, full).
      let reached = over.1 full in
      let down : m.enabled ≡ false = ground (arith, on, reached) in
      cc (sym (enabled-settle_expiry env m down) ∙ up);
  kept = elim (settle_expiry-cases env m) [
    | inr expired ↦
        inr (inr (subst (λ (t : Time). (is_zero t || after t env.now) ≡ false) expires expired))
    | inl same ↦ elim (Bool-cases (over_quota u (pos used))) [
      | inl reached ↦ inr (inl (over.0 reached))
      | inr below ↦ inl (same ∙ on ∙ ground arith)
    ]
  ];
}

-- Take a store whose invariant holds, a stored user whose fields UpsertUser accepts, a use, new bytes and a
-- limit in GiB that do not overflow an int64, and some new bytes. After the charge the user's use is the
-- sum, and the user is not enabled where there is a limit and the use has reached it. The user's switch is
-- as it was, or the limit is reached, or the user's time is over. The charge says that it has switched the
-- user off exactly where the user was enabled and the limit is reached. No other user is changed. This
-- holds whether or not the store can be saved.
pub charge-IsCharged :
    (env : Env) (name : Text) (f a b g : ℕ) (s : Store) (u n : User)
    → WellFormed s.db
    → get_user s name ≡ some u
    → prepare_user u ≡ ok n
    → u.flow_used ≡ pos f
    → u.flow_limit ≡ pos g
    → 0 < a + b
    → f + a + b < 2 ^ 63
    → g * 1073741824 < 2 ^ 63
    → ((v : User) × (lookup name (charge env name (pos a) (pos b) s).1.users ≡ some v)
        × IsCharged env u v (f + a + b) g)
      × (((charge env name (pos a) (pos b) s).0 ≡ true)
          ↔ (Reaches (f + a + b) g × (u.enabled ≡ true)))
      × ((other : Text)
          → (name ≡ other)
            ⊎ (lookup other (charge env name (pos a) (pos b) s).1.users ≡ lookup other s.users))
unfolding charge upsert_user merge_user
charge-IsCharged env name f a b g s u n wf found accepted used limited some_new small_use
      small_limit =
    let new_bytes : (ltb_ℤ (pos 0) (pos a) || ltb_ℤ (pos 0) (pos b)) ≡ true = ground arith in
    let sum = new_used_lem u f a b used small_use in
    let over = over_quota_iff u g (f + a + b) limited small_limit in
    let (c, taken, same, on, total, expires) =
      prepare_user-charged u n (pos (f + a + b)) accepted in
    let named : c.name ≡ name = same ∙ wf.users_named name u (unfold get_user in found) in
    let m = merge_user env c (user_or_new env c.name (lookup c.name s.users)) in
    rw (new_bytes, found, sum, taken, db-saving)
      (
        (
          settle_expiry env m,
          rw (lookup-insert, named, eq_refl) refl,
          IsCharged_lem env u m (f + a + b) g total on expires over,
        ),
        (λ h. ground (arith, over.0), λ (full, up). ground (arith, over.1 full)),
        λ other. elim (Bool-cases (name == other)) [
          | inl is ↦ inl ((eq_iff name other).0 is)
          | inr apart ↦ inr (rw (lookup-insert, named, apart) refl)
        ],
      )
