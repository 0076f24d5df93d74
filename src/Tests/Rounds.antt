-- ===== src/Tests/Rounds.antt =====
-- A whole round of a cluster in which nothing runs yet.
use k3_control_plane.Base.{◌+◌, ◌≤◌, ◌≡◌, refl, some, [], All, length, arith}
use k3_control_plane.Base.Assoc
use k3_control_plane.Base.Sort.{sort_by, insert_sorted}
use k3_control_plane.Api.Clone.{clone_service}
use k3_control_plane.Store.{list_services, list_jobs}
use k3_control_plane.Store.Keyed.{IsKeyed}
use k3_control_plane.Controller.{Controller}
use k3_control_plane.Controller.Placement.{OneTimeout}
use k3_control_plane.Controller.Reconcile.{reconcile}
use k3_control_plane.Controller.Rounds.{IsNatural, wanted, reconcile_returns}
use k3_control_plane.Tests.Data.{cluster, controller_of, alternating, alternating-IsSpread}

abbrev idle : Controller
idle = controller_of (cluster [])

idle-IsKeyed : IsKeyed idle.store
unfolding Assoc.get
idle-IsKeyed = record {
  nodes = (refl, refl, (refl, refl, tt));
  services = (refl, refl, tt);
  jobs = (refl, refl, tt);
  assignments = tt;
}

natural : All IsNatural (list_services idle.store)
unfolding list_services Assoc.values sort_by insert_sorted clone_service
natural = (refl, tt)

room :
    length idle.store.assignments
      + wanted (list_services idle.store)
      + length (list_jobs idle.store)
    ≤ 2
unfolding list_services list_jobs Assoc.values sort_by insert_sorted clone_service
room = omega arith

reconcile_returns_example :
    (c' : Controller) × (reconcile alternating 2 100 idle ≡ some c')
    × IsKeyed c'.store
    × OneTimeout c'
reconcile_returns_example =
    reconcile_returns alternating 2 100 idle idle-IsKeyed refl alternating-IsSpread (omega arith)
      natural room
