-- ===== src/Control/Bootstrap/Groups.antt =====
-- The groups of tunnels that a client program gets, one for each node.
use mathlib.Core.List.Memᴰ
use cosmo_nps.Base.{
  ◌≡◌, refl, sym, ap, ◌∙◌, Bool, true, false, ◌&&◌, Option, none, some, List, [], ◌∷◌, ◌++◌, Memᴰ,
  inl, inr, ◌⊎◌, Bool-cases, subst, if◌then◌else◌, keep, append-nil, append_assoc,
}
use cosmo_nps.Text.{Text, ◌==◌, eq_iff}
use cosmo_nps.Dict.{Dict, lookup, insert}
use cosmo_nps.Dict.Laws.{lookup-insert, Distinct, insert-Distinct}
use cosmo_nps.Core.Model.{Node, Tunnel, RuntimeConfig}
use cosmo_nps.Control.Usage.{or_default}
use cosmo_nps.Control.Bootstrap.{
  BootstrapNode, group_of, add_tunnel, grouped_from, cons_node, nodes_from,
}

insert-group :
    (on : Bool) (node id : Text) (t : Tunnel) (grouped : Dict (List Tunnel))
    → group_of (
        lookup id (
          if on then insert node (group_of (lookup node grouped) ++ (t ∷ [])) grouped else grouped))
      ≡ group_of (lookup id grouped) ++ (if on && node == id then t ∷ [] else [])
insert-group false node id t grouped = sym (append-nil (group_of (lookup id grouped)))
insert-group true node id t grouped = elim (Bool-cases (node == id)) [
  | inl same ↦
      rw (lookup-insert, same)
        (ap (λ k. group_of (lookup k grouped) ++ (t ∷ [])) ((eq_iff node id).0 same))
  | inr other ↦ rw (lookup-insert, other) (sym (append-nil (group_of (lookup id grouped))))
]

abbrev pub in_group : Text → Tunnel → Bool
in_group id t = t.enabled && or_default t.node_id == id

if-append :
    (b : Bool) (t : Tunnel) (ts : List Tunnel)
    → (if b then t ∷ [] else []) ++ ts ≡ (if b then t ∷ ts else ts)
if-append true t ts = refl
if-append false t ts = refl

-- the group of a node holds the node's enabled tunnels, in their order
pub grouped_from-group :
    (ts : List Tunnel) (grouped : Dict (List Tunnel)) (id : Text)
    → group_of (lookup id (grouped_from ts grouped))
      ≡ group_of (lookup id grouped) ++ keep (in_group id) ts
unfolding grouped_from add_tunnel keep
grouped_from-group [] grouped id = sym (append-nil (group_of (lookup id grouped)))
grouped_from-group (t ∷ ts) grouped id =
    let group = group_of (lookup id grouped) in
    let more = if in_group id t then t ∷ [] else [] in
    grouped_from-group ts (add_tunnel t grouped) id
    ∙ ap (λ g. g ++ keep (in_group id) ts)
        (insert-group t.enabled (or_default t.node_id) id t grouped)
    ∙ append_assoc group more (keep (in_group id) ts)
    ∙ ap (λ rest. group ++ rest) (if-append (in_group id t) t (keep (in_group id) ts))

pub grouped_from-Distinct :
    (ts : List Tunnel) (grouped : Dict (List Tunnel))
    → Distinct grouped
    → Distinct (grouped_from ts grouped)
unfolding grouped_from add_tunnel
grouped_from-Distinct [] grouped d = d
grouped_from-Distinct (t ∷ ts) grouped d =
    grouped_from-Distinct ts (add_tunnel t grouped) (elim (Bool-cases t.enabled) [
      | inl on ↦ rw on (insert-Distinct (or_default t.node_id) _ grouped d)
      | inr off ↦ rw off d
    ])

-- a tunnel stands in a node of the list
abbrev pub Listed : Tunnel → List BootstrapNode → Type 0
Listed t nodes = (b : BootstrapNode) × Memᴰ b nodes × Memᴰ t b.tunnels

-- the node of a group, where it is known and enabled
abbrev pub IsOpen : Option Node → Type 0
IsOpen found = (n : Node) × (found ≡ some n) × (n.enabled ≡ true)

cons_node-Listed :
    (runtime : RuntimeConfig) (found : Option Node) (ts : List Tunnel) (rest : List BootstrapNode)
    (t : Tunnel)
    → Listed t (cons_node runtime found ts rest)
    → (IsOpen found × Memᴰ t ts) ⊎ Listed t rest
unfolding cons_node
cons_node-Listed runtime none ts rest t h = inr h
cons_node-Listed runtime (some n) ts rest t (b, at, in_) = elim (Bool-cases n.enabled) [
  | inr off ↦ inr (b, rw (off, cons_node) at at, in_)
  | inl on ↦ elim (Memᴰ.cases_cons (rw (on, cons_node) at at)) [
    | inl same ↦
        inl
          ((n, refl, on), subst (λ us. Memᴰ t us) (ap (λ (x : BootstrapNode). x.tunnels) same) in_)
    | inr later ↦ inr (b, later, in_)
  ]
]

Listed-cons_node :
    (runtime : RuntimeConfig) (found : Option Node) (ts : List Tunnel) (rest : List BootstrapNode)
    (t : Tunnel)
    → (IsOpen found × Memᴰ t ts) ⊎ Listed t rest
    → Listed t (cons_node runtime found ts rest)
unfolding cons_node
Listed-cons_node runtime none ts rest t (inl ((n, is, on), in_)) = absurd (cc is)
Listed-cons_node runtime none ts rest t (inr h) = h
Listed-cons_node runtime (some n) ts rest t h = elim (Bool-cases n.enabled) [
  | inr off ↦
      rw (off, cons_node)
        (elim h [ inl ((m, is, on), in_) ↦ absurd (cc (is, on, off)) | inr h ↦ h ])
  | inl on ↦
      rw (on, cons_node)
        (elim h [
          | inl (_, in_) ↦ (_, Memᴰ.head refl, in_)
          | inr (b, at, in_) ↦ (b, Memᴰ.tail at, in_)
        ])
]

-- the groups whose nodes are known and enabled
pub nodes_from-Listed :
    (runtime : RuntimeConfig) (nodes : Dict Node) (grouped : Dict (List Tunnel)) (t : Tunnel)
    → Listed t (nodes_from runtime nodes grouped)
    → (id : Text) × (ts : List Tunnel) × Memᴰ (id, ts) grouped
      × Memᴰ t ts
      × IsOpen (lookup id nodes)
unfolding nodes_from
nodes_from-Listed runtime nodes [] t (b, at, in_) = elim at [ ]
nodes_from-Listed runtime nodes ((id, ts) ∷ grouped) t h =
    elim (cons_node-Listed runtime (lookup id nodes) ts (nodes_from runtime nodes grouped) t h) [
      | inl (is_open, in_) ↦ (id, ts, Memᴰ.head refl, in_, is_open)
      | inr later ↦
          let (j, us, at, in_, is_open) = nodes_from-Listed runtime nodes grouped t later in
          (j, us, Memᴰ.tail at, in_, is_open)
    ]

pub Listed-nodes_from :
    (runtime : RuntimeConfig) (nodes : Dict Node) (grouped : Dict (List Tunnel)) (t : Tunnel)
    (id : Text) (ts : List Tunnel)
    → Memᴰ (id, ts) grouped
    → Memᴰ t ts
    → IsOpen (lookup id nodes)
    → Listed t (nodes_from runtime nodes grouped)
unfolding nodes_from
Listed-nodes_from runtime nodes [] t id ts at in_ known = elim at [ ]
Listed-nodes_from runtime nodes ((j, us) ∷ grouped) t id ts (Memᴰ.head same) in_ known =
    Listed-cons_node runtime (lookup j nodes) us (nodes_from runtime nodes grouped) t (
      inl (
        subst (λ k. IsOpen (lookup k nodes)) (ap (λ (e : Text × List Tunnel). e.0) same) known,
        subst (λ l. Memᴰ t l) (ap (λ (e : Text × List Tunnel). e.1) same) in_,
      ))
Listed-nodes_from runtime nodes ((j, us) ∷ grouped) t id ts (Memᴰ.tail at) in_ known =
    Listed-cons_node runtime (lookup j nodes) us (nodes_from runtime nodes grouped) t
      (inr (Listed-nodes_from runtime nodes grouped t id ts at in_ known))
