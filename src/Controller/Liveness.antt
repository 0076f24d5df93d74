-- ===== src/Controller/Liveness.antt =====
-- The set of live nodes (`liveNodeSet` over `nodes` in internal/controller/controller.go).
use mathlib.Core.Bool.{false≢true}
use k3_control_plane.Base.{
  String, true, false, ◌≡◌, refl, ◌∙◌, sym, ap, ◌↔◌, ◌⊎◌, inl, inr, ◌==◌, eq_iff, some, List, [],
  ◌∷◌, map, arith, Bool-cases, leb, In, In-map, map-In,
}
use k3_control_plane.Base.Assoc
use k3_control_plane.Base.Assoc.{has-put, key-eq_of_get}
use k3_control_plane.Api.{Time, Node}
use k3_control_plane.Store.{list_nodes}
use k3_control_plane.Store.Keyed.{IsKeyed}
use k3_control_plane.Store.Listing.{In-list_nodes}
use k3_control_plane.Scheduler.{StringSet, Duration, since}
use k3_control_plane.Controller.{
  Controller, with_grace, known_nodes, add_live_nodes, live_node_set, live_set,
}

-- Within the timeout, as the code tests it.
abbrev pub IsFresh : Time → Duration → Node → Type 0
IsFresh now timeout n = leb (since now n.last_heartbeat) timeout ≡ true

add_live_nodes_of_has :
    (k : String) (now : Time) (nodes : List Node) (timeout : Duration) (live : StringSet)
    → Assoc.has k live ≡ true
    → Assoc.has k (add_live_nodes now nodes timeout live) ≡ true
unfolding add_live_nodes
add_live_nodes_of_has k now [] timeout live h = h
add_live_nodes_of_has k now (n ∷ nodes) timeout live h =
    add_live_nodes_of_has k now nodes timeout _ (ground (arith, has-put n.id k tt live))

add_live_nodes_fresh :
    (now : Time) (nodes : List Node) (timeout : Duration) (live : StringSet) (n : Node)
    → In n nodes
    → IsFresh now timeout n
    → Assoc.has n.id (add_live_nodes now nodes timeout live) ≡ true
unfolding add_live_nodes
add_live_nodes_fresh now [] timeout live n i f = absurd i
add_live_nodes_fresh now (x ∷ nodes) timeout live n (inl e) f =
    add_live_nodes_of_has n.id now nodes timeout _
      (rw (← e, f) (ground (arith, has-put n.id n.id tt live, eq_iff n.id n.id)))
add_live_nodes_fresh now (x ∷ nodes) timeout live n (inr i) f =
    add_live_nodes_fresh now nodes timeout _ n i f

IsFresh-of_has :
    (k : String) (now : Time) (nodes : List Node) (timeout : Duration) (live : StringSet)
    → Assoc.has k (add_live_nodes now nodes timeout live) ≡ true
    → (Assoc.has k live ≡ true) ⊎ ((n : Node) × In n nodes × (n.id ≡ k) × IsFresh now timeout n)
unfolding add_live_nodes
IsFresh-of_has k now [] timeout live h = inl h
IsFresh-of_has k now (x ∷ nodes) timeout live h = elim (IsFresh-of_has k now nodes timeout _ h) [
  | inl old ↦ elim (Bool-cases (leb (since now x.last_heartbeat) timeout)) [
    | inl f ↦ elim (Bool-cases (x.id == k)) [
      | inl same ↦ inr (x, inl refl, (eq_iff x.id k).0 same, f)
      | inr other ↦ inl (ground (arith, has-put x.id k tt live))
    ]
    | inr stale ↦ inl (rw stale at old)
  ]
  | inr (n, i, same, f) ↦ inr (n, inr i, same, f)
]

-- The node as the controller sees it answers within the timeout.
abbrev pub IsLive : Time → Controller → Node → Type 0
IsLive now c n = IsFresh now c.node_timeout (with_grace c.started_at n)

pub id-with_grace : (t : Time) (n : Node) → (with_grace t n).id ≡ n.id
unfolding with_grace
id-with_grace t n = ground arith

not-has-nil : (k : String) → Assoc.has {V = Unit {0}} k [] ≡ false
unfolding Assoc.has Assoc.get
not-has-nil k = refl

-- The set holds exactly the IDs of the stored nodes that are live.
pub has-live_set :
    (now : Time) (c : Controller) (k : String)
    → IsKeyed c.store
    → (Assoc.has k (live_set now c) ≡ true)
      ↔ ((n : Node) × (Assoc.get k c.store.nodes ≡ some n) × IsLive now c n)
unfolding live_set live_node_set known_nodes
has-live_set now c k h = (
  λ e.
      elim (IsFresh-of_has k now (map (with_grace c.started_at) (list_nodes c.store)) c.node_timeout
        [] e) [
          | inl empty ↦ absurd (false≢true (sym (not-has-nil k) ∙ empty))
          | inr (n', i, same, f) ↦
              let (n, j, from) = map-In (with_grace c.started_at) n' (list_nodes c.store) i in
              let id_eq : n.id ≡ k =
                sym (id-with_grace c.started_at n) ∙ sym (ap (λ (m : Node). m.id) from) ∙ same in
              (n, rw (← id_eq) ((In-list_nodes c.store n h).0 j), rw from at f)
        ],
  λ (n, g, live).
      let stored_id : n.id ≡ k = key-eq_of_get (λ (m : Node). m.id) k n c.store.nodes h.nodes g in
      let listed =
        (In-list_nodes c.store n h).1
          (ap (λ (x : String). Assoc.get x c.store.nodes) stored_id ∙ g) in
      rw (← stored_id, ← id-with_grace c.started_at n)
        (add_live_nodes_fresh now (map (with_grace c.started_at) (list_nodes c.store))
          c.node_timeout [] (with_grace c.started_at n)
          (In-map (with_grace c.started_at) n (list_nodes c.store) listed) live),
)
