-- ===== src/Controller/Jobs.antt =====
-- internal/controller/jobs.go: `reconcileJob`.
pub mod Scanned
pub mod Attempts
pub mod Step
use k3_control_plane.Base.{
  ℕ, ltb, String, Bool, true, false, not, Option, none, some, List, [], ◌∷◌, if◌then◌else◌,
}
use k3_control_plane.Base.Int.{ℤ, pos, ltb_ℤ, add64, sub64}
use k3_control_plane.Base.Assoc
use k3_control_plane.Api.{Time, Job, JobStatus, Assignment, zero_job_status}
use k3_control_plane.Api.Phases.{pending, succeeded, failed, job, phase_eq, is_active_phase}
use k3_control_plane.Store.{
  list_assignments, list_assignments_for_owner, save_assignment, update_job_status,
}
use k3_control_plane.Scheduler.{StringSet, choose_node}
use k3_control_plane.Controller.{Controller, known_nodes, live_set, max_int}
use k3_control_plane.Controller.Ids.{Env, next_assignment_id}

-- The variables of the loop.
pub record Scan : Type 0 where
  pub status : JobStatus
  pub latest_terminal : Option Assignment
  pub active : Option Assignment

-- How the loop ends: by the early return on a success, or with all assignments seen.
pub data ScanEnd : Type 0 where
  success : JobStatus → ScanEnd
  seen : Scan → ScanEnd

-- `latestTerminal == nil || latestTerminal.CreatedAt.Before(assignment.CreatedAt)`
unfoldable pub later_terminal : Option Assignment → Assignment → Option Assignment
later_terminal none a = some a
later_terminal (some latest) a = if ltb latest.created_at a.created_at then some a else some latest

unfoldable pub scan_assignment : StringSet → Assignment → Scan → Scan
scan_assignment live a acc =
    if is_active_phase a.phase
    then (if Assoc.has a.node_id live then record acc { active = some a } else acc)
    else record acc {
      latest_terminal = later_terminal acc.latest_terminal a;
      status =
          if phase_eq a.phase failed
          then record (acc.status) {
            failed_attempts = add64 acc.status.failed_attempts (pos 1);
            last_failure = a.status_message;
          }
          else acc.status;
    }

unfoldable pub scan_assignments : StringSet → List Assignment → Scan → ScanEnd
scan_assignments live [] acc = seen acc
scan_assignments live (a ∷ rest) acc =
    let later = scan_assignments live rest (scan_assignment live a acc) in
    if phase_eq a.phase succeeded
    then success (record (acc.status) {
      succeeded = true;
      completed_at = a.finished_at;
      last_assignment_id = a.id;
    })
    else later

unfoldable pub job_assignment : Job → String → String → ℤ → Time → Assignment
job_assignment j id node_id attempt now = record {
  id = id;
  owner_kind = job;
  owner_name = j.name;
  node_id = node_id;
  image = j.image;
  command = j.command;
  env = j.env;
  resources = j.resources;
  volumes = j.volumes;
  ports = [];
  attempt = attempt;
  phase = pending;
  status_message = "";
  created_at = now;
  started_at = none;
  finished_at = none;
}

unfoldable pub report_job : Controller → Job → JobStatus → Controller
report_job c j status = record c { store = (update_job_status c.store j.name status).0 }

-- The status while an assignment is active on a live node.
unfoldable pub active_status : JobStatus → Assignment → JobStatus
active_status status active = record status {
  active_assignment_id = active.id;
  last_assignment_id = active.id;
  failed_attempts = max_int status.failed_attempts (sub64 active.attempt (pos 1));
}

unfoldable pub last_id : JobStatus → Option Assignment → JobStatus
last_id status none = status
last_id status (some latest) = record status { last_assignment_id = latest.id }

-- From the test of the retries on: a new attempt, if one is left and a node has room for it.
unfoldable pub start_attempt : Env → ℕ → Time → Controller → Job → JobStatus → Option Controller
start_attempt env fuel now c j status =
    if ltb_ℤ j.retries status.failed_attempts
    then some (report_job c j status)
    else elim (choose_node c.scheduler now (known_nodes c) (list_assignments c.store) j.resources
        j.placement []) [
          | none ↦ some (report_job c j status)
          | some node_id ↦
              let attempt = add64 status.failed_attempts (pos 1) in
              elim (next_assignment_id env fuel c.store j.name attempt c.draws) [
                | none ↦ none
                | some (id, draws) ↦
                    let c' = record c {
                      store = save_assignment c.store (job_assignment j id node_id attempt now);
                      draws = draws;
                    } in
                    some (
                      report_job c' j
                        (record status { active_assignment_id = id; last_assignment_id = id }))
              ]
        ]

unfoldable pub finish_job : Env → ℕ → Time → Controller → Job → ScanEnd → Option Controller
finish_job env fuel now c j (success status) = some (report_job c j status)
finish_job env fuel now c j (seen acc) = elim acc.active [
  | some active ↦ some (report_job c j (active_status acc.status active))
  | none ↦ start_attempt env fuel now c j (last_id acc.status acc.latest_terminal)
]

abbrev pub empty_scan : Scan
empty_scan = record { status = zero_job_status; latest_terminal = none; active = none }

unfoldable pub reconcile_job : Env → ℕ → Time → Controller → Job → Option Controller
reconcile_job env fuel now c j =
    finish_job env fuel now c j
      (scan_assignments (live_set now c) (list_assignments_for_owner c.store job j.name) empty_scan)
