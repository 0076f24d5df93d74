-- ===== src/Controller/Placement.antt =====
-- Where the controller places new work (`ChooseNode` over `nodes`, internal/controller): on a live node.
use k3_control_plane.Base.{◌≤◌, String, true, ◌≡◌, ◌∙◌, sym, ap, subst, some, List, arith, map-In}
use k3_control_plane.Base.Int.{ℤ}
use k3_control_plane.Base.Assoc
use k3_control_plane.Api.{Time, Node, Assignment, ResourceRequirements, Placement}
use k3_control_plane.Store.{list_nodes}
use k3_control_plane.Store.Keyed.{IsKeyed}
use k3_control_plane.Store.Listing.{In-list_nodes}
use k3_control_plane.Scheduler.{Duration, since, choose_node}
use k3_control_plane.Scheduler.Choice.{choose_node-some}
use k3_control_plane.Controller.{Controller, with_grace, known_nodes, live_set}
use k3_control_plane.Controller.Liveness.{IsFresh, has-live_set, id-with_grace}

-- The controller and its scheduler are made with one timeout (cmd/controller/main.go).
abbrev pub OneTimeout : Controller → Type 0
OneTimeout c = c.scheduler.node_timeout ≡ c.node_timeout

IsFresh-of_le :
    (now : Time) (timeout : Duration) (n : Node)
    → since now n.last_heartbeat ≤ timeout
    → IsFresh now timeout n
IsFresh-of_le now timeout n h = ground arith

-- The node that is chosen from those that the controller knows is in the set of live ones.
pub chosen_live :
    (now : Time) (c : Controller) (xs : List Assignment) (req : ResourceRequirements)
    (placement : Placement) (ports : List ℤ) {id : String}
    → IsKeyed c.store
    → OneTimeout c
    → choose_node c.scheduler now (known_nodes c) xs req placement ports ≡ some id
    → Assoc.has id (live_set now c) ≡ true
unfolding known_nodes
chosen_live now c xs req placement ports {id} h one e =
    let ((n', i, same, ok), least) =
      choose_node-some c.scheduler now (known_nodes c) xs req placement ports e in
    let (n, j, from) = map-In (with_grace c.started_at) n' (list_nodes c.store) i in
    let id_eq : n.id ≡ id =
      sym (id-with_grace c.started_at n) ∙ sym (ap (λ (m : Node). m.id) from) ∙ same in
    let alive : IsFresh now c.node_timeout n' =
      IsFresh-of_le now c.node_timeout n' (rw (← one) ok.live) in
    (has-live_set now c id h).1 (
      n,
      ap (λ (x : String). Assoc.get x c.store.nodes) (sym id_eq) ∙ (In-list_nodes c.store n h).0 j,
      subst (IsFresh now c.node_timeout) from alive,
    )
