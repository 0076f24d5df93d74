-- ===== src/Controller/Reconcile.antt =====
-- `Reconcile` of internal/controller/controller.go: one round of the control loop.
use k3_control_plane.Base.{ℕ, Option, none, some, List, [], ◌∷◌, nat_eq, if◌then◌else◌}
use k3_control_plane.Api.{Time, Service, Job}
use k3_control_plane.Store.{list_services, list_jobs}
use k3_control_plane.Controller.{Controller, mark_lost_assignments}
use k3_control_plane.Controller.Ids.{Env}
use k3_control_plane.Controller.Services.{reconcile_service}
use k3_control_plane.Controller.Jobs.{reconcile_job}

-- `startedAt` is set by the first round.
unfoldable pub note_start : Time → Controller → Controller
note_start now c = if nat_eq c.started_at 0 then record c { started_at = now } else c

unfoldable pub reconcile_services : Env → ℕ → Time → List Service → Controller → Option Controller
reconcile_services env fuel now [] c = some c
reconcile_services env fuel now (v ∷ vs) c = elim (reconcile_service env fuel now c v) [
  | none ↦ none
  | some c' ↦ reconcile_services env fuel now vs c'
]

unfoldable pub reconcile_jobs : Env → ℕ → Time → List Job → Controller → Option Controller
reconcile_jobs env fuel now [] c = some c
reconcile_jobs env fuel now (j ∷ js) c = elim (reconcile_job env fuel now c j) [
  | none ↦ none
  | some c' ↦ reconcile_jobs env fuel now js c'
]

unfoldable pub reconcile : Env → ℕ → Time → Controller → Option Controller
reconcile env fuel now c =
    let c' = mark_lost_assignments now (note_start now c) in
    elim (reconcile_services env fuel now (list_services c'.store) c') [
      | none ↦ none
      | some c'' ↦ reconcile_jobs env fuel now (list_jobs c''.store) c''
    ]
