-- ===== src/Tests/Reaching.antt =====
-- A controller to which a service is posted, and its first round.
use k3_control_plane.Base.{◌+◌, ◌≤◌, ◌≡◌, some, [], ◌∷◌, length, arith}
use k3_control_plane.Base.Assoc
use k3_control_plane.Base.Sort.{sort_by, insert_sorted}
use k3_control_plane.Base.Strings.{has_prefix, cut_prefix, contains, has_suffix, cut_suffix}
use k3_control_plane.Api.Clone.{clone_service}
use k3_control_plane.Store.{new_memory_store, list_services, list_jobs, upsert_service}
use k3_control_plane.Controller.{Controller, new_controller}
use k3_control_plane.Controller.Reconcile.{reconcile}
use k3_control_plane.Controller.Rounds.{wanted}
use k3_control_plane.Controller.Sound.{IsSound}
use k3_control_plane.Http.{Request, decode_json, respond, with_store}
use k3_control_plane.Http.Auth.{admin_only, caller_cn}
use k3_control_plane.Http.Handlers.{handle_services, post_service, default_service}
use k3_control_plane.Http.Routes.{serve_http, route, is_clean}
use k3_control_plane.System.{
  request, Reachable, start, after, Reachable-IsSound, reachable_round_returns,
}
use k3_control_plane.Tests.Data.{alternating, alternating-IsSpread}
use k3_control_plane.Tests.Requests.{auth, json}

abbrev begun : Controller
begun = new_controller new_memory_store (record { node_timeout = 30 }) 30

-- The administrator posts a service.
abbrev posting : Request
posting = record {
  method = "POST";
  path = "/services";
  authorization = "";
  verified_chains = some (("k8:admin" ∷ []) ∷ []);
  body = "{}";
}

abbrev posted : Controller
posted = (serve_http auth json 100 posting begun).0

abbrev reached : Reachable alternating auth json posted
reached = after begun posted (start 30) (request 100 posting begun)

Reachable-IsSound_example : IsSound posted
Reachable-IsSound_example = Reachable-IsSound alternating auth json reached

room :
    length posted.store.assignments
      + wanted (list_services posted.store)
      + length (list_jobs posted.store)
    ≤ 2
unfolding list_services list_jobs Assoc.values Assoc.put sort_by insert_sorted clone_service
    serve_http route admin_only caller_cn handle_services decode_json post_service default_service
    respond with_store upsert_service is_clean has_prefix cut_prefix contains has_suffix cut_suffix
room = omega arith

reachable_round_returns_example :
    (c' : Controller) × (reconcile alternating 2 100 posted ≡ some c')
    × Reachable alternating auth json c'
reachable_round_returns_example =
    reachable_round_returns alternating auth json 2 100 posted reached alternating-IsSpread
      (omega arith) room
