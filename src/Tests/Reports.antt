-- ===== src/Tests/Reports.antt =====
-- The status of a service (internal/controller/services.go) on small data.
use k3_control_plane.Base.{◌^◌, ◌<◌, ◌≡◌, [], ◌∷◌, map, arith, length, count_by, filter_by, str_ltb}
use k3_control_plane.Base.Int.{pos}
use k3_control_plane.Base.Assoc
use k3_control_plane.Base.Sort.{sort_by, insert_sorted}
use k3_control_plane.Api.{Assignment}
use k3_control_plane.Api.Phases.{service}
use k3_control_plane.Store.{MemoryStore, list_assignments, list_assignments_for_owner}
use k3_control_plane.Scheduler.{StringSet}
use k3_control_plane.Controller.Services.{is_active_live, service_status}
use k3_control_plane.Controller.Services.Report.{
  is_live_pending, is_live_running, service_status_counts,
}
use k3_control_plane.Tests.Data.{web, live_replica, silent_replica, cluster}

abbrev state : MemoryStore
state = cluster (live_replica ∷ silent_replica ∷ [])

abbrev only_a : StringSet
only_a = ("a", tt) ∷ []

few : length (list_assignments_for_owner state service "web") < 2 ^ 63
unfolding list_assignments_for_owner list_assignments Assoc.values filter_by sort_by insert_sorted
few = ground arith

service_status_counts_example :
    ((service_status only_a 100 web state).desired_replicas ≡ pos 1)
    × ((service_status only_a 100 web state).running_replicas
        ≡ pos (count_by (is_live_running only_a) (list_assignments_for_owner state service "web")))
    × ((service_status only_a 100 web state).pending_replicas
        ≡ pos (count_by (is_live_pending only_a) (list_assignments_for_owner state service "web")))
    × ((service_status only_a 100 web state).assignment_ids
        ≡ sort_by str_ltb (
            map
              (λ (a : Assignment). a.id)
              (filter_by (is_active_live only_a) (list_assignments_for_owner state service "web"))))
service_status_counts_example = service_status_counts only_a 100 web state few
