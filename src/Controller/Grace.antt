-- ===== src/Controller/Grace.antt =====
-- The startup grace (`nodes` and `Reconcile` of internal/controller/controller.go): a restart alone makes
-- no work lost.
use mathlib.Core.Option
use k3_control_plane.Base.{◌≤◌, String, true, ◌≡◌, ◌∙◌, ap, some, arith}
use k3_control_plane.Base.Assoc
use k3_control_plane.Api.{Time, Node, Assignment}
use k3_control_plane.Store.Keyed.{IsKeyed}
use k3_control_plane.Scheduler.{since}
use k3_control_plane.Controller.{Controller, with_grace, live_set, mark_lost_assignments}
use k3_control_plane.Controller.Liveness.{IsLive, has-live_set}
use k3_control_plane.Controller.Lost.{marked, get-mark_lost_assignments}

-- Within one timeout of the start every stored node counts as live.
IsLive-of_grace :
    (now : Time) (c : Controller) (n : Node)
    → since now c.started_at ≤ c.node_timeout
    → IsLive now c n
unfolding with_grace since
IsLive-of_grace now c n h = ground arith

marked_live :
    (now : Time) (c : Controller) (a : Assignment)
    → Assoc.has a.node_id (live_set now c) ≡ true
    → marked now (live_set now c) a ≡ a
unfolding marked
marked_live now c a h = ground arith

-- For one timeout after the start, no assignment to a stored node is touched by the marking,
-- however old the stored heartbeats are, if the store is well-formed.
pub mark_lost_assignments_grace :
    (now : Time) (c : Controller) (j : String) {a : Assignment} {n : Node}
    → IsKeyed c.store
    → since now c.started_at ≤ c.node_timeout
    → Assoc.get j c.store.assignments ≡ some a
    → Assoc.get a.node_id c.store.nodes ≡ some n
    → Assoc.get j (mark_lost_assignments now c).store.assignments ≡ some a
mark_lost_assignments_grace now c j {a} {n} h early g node =
    let live = (has-live_set now c a.node_id h).1 (n, node, IsLive-of_grace now c n early) in
    get-mark_lost_assignments now c j h
    ∙ ap (Option.map (marked now (live_set now c))) g
    ∙ ap (λ (x : Assignment). some x) (marked_live now c a live)
