-- ===== src/Tests/Stores.antt =====
-- The store (internal/store) on small data.
use mathlib.Core.List.Permᴰ.{swap}
use k3_control_plane.Base.{true, ◌≡◌, refl, none, some, List, [], ◌∷◌, In, ◌↔◌}
use k3_control_plane.Base.Assoc
use k3_control_plane.Base.Sort.{IsSorted}
use k3_control_plane.Api.Phases.{running, succeeded, failed, is_terminal_phase}
use k3_control_plane.Api.Phases
use k3_control_plane.Store.{
  new_memory_store, assignment_less, list_assignments, list_node_assignments,
  list_assignments_for_owner, delete_service, delete_job, update_assignment_status,
}
use k3_control_plane.Store.Keyed.{IsKeyed, new-IsKeyed}
use k3_control_plane.Store.Writes.{Write, write_all, write_all-IsKeyed}
use k3_control_plane.Store.Listing.{
  In-list_node_assignments, In-list_assignments_for_owner, list_assignments-IsSorted,
  list_assignments-perm,
}
use k3_control_plane.Store.Status.{update_terminal}
use k3_control_plane.Store.Reports.{
  Report, report_all, after_reports, up_to_end, SameBut, report_all-History,
}
use k3_control_plane.Store.Delete.{Deleted, delete_service-Deleted, delete_job-Deleted}
use k3_control_plane.Tests.Data.{
  node_at, web, silent_replica, live_replica, failed_run, cluster, one-IsKeyed,
}

abbrev writes : List Write
writes =
    Write.upsert_node (node_at "a" 90)
    ∷ Write.upsert_service web
    ∷ Write.save_assignment live_replica
    ∷ Write.update_assignment_status "web-1-a" failed "gone" 95
    ∷ Write.delete_service "web"
    ∷ []

write_all-IsKeyed_example : IsKeyed (write_all new_memory_store writes)
write_all-IsKeyed_example = write_all-IsKeyed new_memory_store writes new-IsKeyed

delete_service-Deleted_example :
    ((delete_service (cluster (live_replica ∷ [])) "web").1 ≡ true)
    × Deleted Phases.service "web"
        (cluster (live_replica ∷ []))
        (delete_service (cluster (live_replica ∷ [])) "web").0
    × (Assoc.get "web" (delete_service (cluster (live_replica ∷ [])) "web").0.services ≡ none)
    × ((delete_service (cluster (live_replica ∷ [])) "web").0.jobs
        ≡ (cluster (live_replica ∷ [])).jobs)
unfolding Assoc.get
delete_service-Deleted_example =
    delete_service-Deleted (cluster (live_replica ∷ [])) "web" (one-IsKeyed live_replica) refl

delete_job-Deleted_example :
    ((delete_job (cluster (failed_run ∷ [])) "batch").1 ≡ true)
    × Deleted Phases.job "batch"
        (cluster (failed_run ∷ []))
        (delete_job (cluster (failed_run ∷ [])) "batch").0
    × (Assoc.get "batch" (delete_job (cluster (failed_run ∷ [])) "batch").0.jobs ≡ none)
    × ((delete_job (cluster (failed_run ∷ [])) "batch").0.services
        ≡ (cluster (failed_run ∷ [])).services)
unfolding Assoc.get
delete_job-Deleted_example =
    delete_job-Deleted (cluster (failed_run ∷ [])) "batch" (one-IsKeyed failed_run) refl

update_terminal_example :
    update_assignment_status (cluster (failed_run ∷ [])) "batch-1-x" running "back" 95
    ≡ (cluster (failed_run ∷ []), some failed_run)
unfolding Assoc.get is_terminal_phase
update_terminal_example =
    update_terminal (cluster (failed_run ∷ [])) "batch-1-x" running "back" 95 refl refl

-- The end is reported twice; the second report comes too late.
abbrev reports : List Report
reports =
    record { phase = running; message = "up"; time = 95 }
    ∷ record { phase = succeeded; message = "done"; time = 96 }
    ∷ record { phase = failed; message = "gone"; time = 97 }
    ∷ []

report_all-History_example :
    (Assoc.get "web-1-a" (report_all (cluster (live_replica ∷ [])) "web-1-a" reports).assignments
      ≡ some (after_reports live_replica (up_to_end reports)))
    × SameBut "web-1-a"
        (cluster (live_replica ∷ []))
        (report_all (cluster (live_replica ∷ [])) "web-1-a" reports)
unfolding Assoc.get is_terminal_phase
report_all-History_example =
    report_all-History (cluster (live_replica ∷ [])) "web-1-a" live_replica reports refl refl refl

In-list_node_assignments_example :
    In live_replica (list_node_assignments (cluster (live_replica ∷ [])) "a") ↔ (
      (Assoc.get "web-1-a" (cluster (live_replica ∷ [])).assignments ≡ some live_replica)
      × (live_replica.node_id ≡ "a"))
In-list_node_assignments_example =
    In-list_node_assignments (cluster (live_replica ∷ [])) "a" live_replica
      (one-IsKeyed live_replica)

In-list_assignments_for_owner_example :
    In live_replica (list_assignments_for_owner (cluster (live_replica ∷ [])) Phases.service "web")
    ↔ ((Assoc.get "web-1-a" (cluster (live_replica ∷ [])).assignments ≡ some live_replica)
        × (live_replica.owner_kind ≡ Phases.service)
        × (live_replica.owner_name ≡ "web"))
In-list_assignments_for_owner_example =
    In-list_assignments_for_owner (cluster (live_replica ∷ [])) Phases.service "web" live_replica
      (one-IsKeyed live_replica)

list_assignments-IsSorted_example :
    IsSorted assignment_less (list_assignments (cluster (live_replica ∷ silent_replica ∷ [])))
list_assignments-IsSorted_example =
    list_assignments-IsSorted (cluster (live_replica ∷ silent_replica ∷ []))

two-IsKeyed : IsKeyed (cluster (live_replica ∷ silent_replica ∷ []))
unfolding Assoc.get
two-IsKeyed = record {
  nodes = (one-IsKeyed live_replica).nodes;
  services = (one-IsKeyed live_replica).services;
  jobs = (one-IsKeyed live_replica).jobs;
  assignments = (refl, refl, (refl, refl, tt));
}

list_assignments-perm_example :
    list_assignments (cluster (live_replica ∷ silent_replica ∷ []))
    ≡ list_assignments (cluster (silent_replica ∷ live_replica ∷ []))
list_assignments-perm_example =
    list_assignments-perm (cluster (live_replica ∷ silent_replica ∷ []))
      (cluster (silent_replica ∷ live_replica ∷ [])) two-IsKeyed (swap refl refl)
