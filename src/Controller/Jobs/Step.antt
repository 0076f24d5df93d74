-- ===== src/Controller/Jobs/Step.antt =====
-- What a round for one job (`reconcileJob` of internal/controller/jobs.go) keeps for the rounds after it.
use k3_control_plane.Base.{
  ℕ, ◌^◌, ◌≤◌, ◌<◌, String, ◌≡◌, refl, ap, subst, Option, none, some, List, [], ◌∷◌, inl, inr,
  arith, length, Bool-cases, Option-cases, length-filter_by-le, map,
}
use k3_control_plane.Base.Int.{pos, ltb_ℤ}
use k3_control_plane.Base.Assoc
use k3_control_plane.Base.Assoc.{Assoc}
use k3_control_plane.Base.Sort.{length-sort_by}
use k3_control_plane.Api.{Time, Job, JobStatus, Assignment}
use k3_control_plane.Api.Phases.{job}
use k3_control_plane.Store.{
  MemoryStore, list_assignments, list_assignments_for_owner, assignment_less, is_owned_by,
}
use k3_control_plane.Store.Keyed.{IsKeyed}
use k3_control_plane.Api.Clone.{clone_assignment}
use k3_control_plane.Base.Int.{add64}
use k3_control_plane.Scheduler.{choose_node}
use k3_control_plane.Controller.Ids.{next_assignment_id}
use k3_control_plane.Controller.{known_nodes, Controller, live_set}
use k3_control_plane.Controller.Ids.{Env}
use k3_control_plane.Controller.Fresh.{IsSpread}
use k3_control_plane.Controller.Placement.{OneTimeout}
use k3_control_plane.Controller.Stepped.{Stepped}
use k3_control_plane.Controller.Services.Fill.{length-put_le}
use k3_control_plane.Controller.Jobs.{
  ScanEnd, success, seen, empty_scan, last_id, scan_assignments, reconcile_job, finish_job,
  start_attempt, report_job,
}
use k3_control_plane.Controller.Jobs.Attempts.{reconcile_job_attempts}

pub length-values : {V : Type 0} (m : Assoc V) → length (Assoc.values m) ≡ length m
unfolding Assoc.values
length-values [] = refl
length-values ((k, v) ∷ m) = omega (arith, length-values m)

length-map : {A B : Type 0} (f : A → B) (xs : List A) → length (map f xs) ≡ length xs
length-map f [] = refl
length-map f (x ∷ xs) = omega (arith, length-map f xs)

owned-le :
    (s : MemoryStore) (name : String)
    → length (list_assignments_for_owner s job name) ≤ length s.assignments
unfolding list_assignments_for_owner list_assignments
owned-le s name = omega (
  arith,
  length-filter_by-le (is_owned_by job name) (list_assignments s),
  length-sort_by assignment_less (map clone_assignment (Assoc.values s.assignments)),
  length-map clone_assignment (Assoc.values s.assignments),
  length-values s.assignments,
)

-- The controller that a step returns, if it returns one, has one timeout.
abbrev Keeps : Option Controller → Type 0
Keeps none = Unit
Keeps (some c) = OneTimeout c

report_job-OneTimeout :
    (c : Controller) (j : Job) (status : JobStatus)
    → OneTimeout c
    → OneTimeout (report_job c j status)
unfolding report_job
report_job-OneTimeout c j status one = one

start_attempt-Keeps :
    (env : Env) (fuel : ℕ) (now : Time) (c : Controller) (j : Job) (status : JobStatus)
    → OneTimeout c
    → Keeps (start_attempt env fuel now c j status)
unfolding start_attempt report_job
start_attempt-Keeps env fuel now c j status one =
    elim (Bool-cases (ltb_ℤ j.retries status.failed_attempts)) [
      | inl spent ↦ rw (spent, start_attempt) one
      | inr left ↦
          elim (Option-cases (
            choose_node c.scheduler now (known_nodes c) (list_assignments c.store) j.resources
              j.placement [])) [
                | inl nowhere ↦ rw (left, nowhere, start_attempt) one
                | inr (node_id, chosen) ↦
                    elim (Option-cases (
                      next_assignment_id env fuel c.store j.name
                        (add64 status.failed_attempts (pos 1)) c.draws)) [
                          | inl stuck ↦ rw (left, chosen, stuck, start_attempt) tt
                          | inr (drawn, found) ↦ rw (left, chosen, found, start_attempt) one
                        ]
              ]
    ]

finish_job-Keeps :
    (env : Env) (fuel : ℕ) (now : Time) (c : Controller) (j : Job) (end : ScanEnd)
    → OneTimeout c
    → Keeps (finish_job env fuel now c j end)
unfolding finish_job report_job
finish_job-Keeps env fuel now c j (success status) one = one
finish_job-Keeps env fuel now c j (seen acc) one = elim (Option-cases acc.active) [
  | inl idle ↦
      rw (idle, finish_job)
        (start_attempt-Keeps env fuel now c j (last_id acc.status acc.latest_terminal) one)
  | inr (a, busy) ↦ rw (busy, finish_job) one
]

reconcile_job-Keeps :
    (env : Env) (fuel : ℕ) (now : Time) (c : Controller) (j : Job)
    → OneTimeout c
    → Keeps (reconcile_job env fuel now c j)
unfolding reconcile_job
reconcile_job-Keeps env fuel now c j one =
    finish_job-Keeps env fuel now c j
      (scan_assignments (live_set now c) (list_assignments_for_owner c.store job j.name) empty_scan)
      one

pub reconcile_job-Stepped :
    (env : Env) (fuel : ℕ) (now : Time) (c : Controller) (j : Job)
    → IsSpread env fuel
    → fuel < 2 ^ 63
    → IsKeyed c.store
    → OneTimeout c
    → length c.store.assignments < fuel
    → (c' : Controller) × (reconcile_job env fuel now c j ≡ some c') × Stepped 1 c c'
reconcile_job-Stepped env fuel now c j spread small h one room =
    let (c', run, keyed, outcome) =
      reconcile_job_attempts env fuel now c j h one spread room
        (omega (arith, owned-le c.store j.name)) in
    (
      c',
      run,
      record {
        keyed = keyed;
        one = subst Keeps run (reconcile_job-Keeps env fuel now c j one);
        longer = elim outcome [
          | inl (same, _) ↦ omega (arith, ap (λ (m : Assoc Assignment). length m) same)
          | inr (_, _, _, new) ↦ omega (
            arith,
            ap (λ (m : Assoc Assignment). length m) new.saved,
            length-put_le new.id _ c.store.assignments,
          )
        ];
      },
    )
