-- ===== src/Controller/Jobs/Attempts.antt =====
-- When `reconcileJob` (internal/controller/jobs.go) makes a new attempt at a job, and which.
use k3_control_plane.Base.{
  ℕ, ◌+◌, ◌^◌, ◌≤◌, ◌<◌, ◌∷◌, ltb, String, Bool, true, false, ◌≡◌, ◌⊎◌, refl, ap, ◌∙◌, Option, none,
  some, List, [], Bool-cases, Option-cases, inl, inr, arith, length, count_by, In, str_ltb,
}
use k3_control_plane.Base.Int.{pos, ltb_ℤ, add64, add64_exact}
use k3_control_plane.Base.Assoc
use k3_control_plane.Base.Assoc.{Assoc}
use k3_control_plane.Api.{Time, Node, Job, JobStatus, Assignment}
use k3_control_plane.Api.Phases.{job}
use k3_control_plane.Api.Clone.{clone_assignment_lem}
use k3_control_plane.Store.{
  MemoryStore, list_assignments, list_assignments_for_owner, save_assignment, update_job_status,
}
use k3_control_plane.Store.Keyed.{IsKeyed, save_assignment-IsKeyed, update_job_status-IsKeyed}
use k3_control_plane.Scheduler.{choose_node}
use k3_control_plane.Scheduler.Choice.{Eligible, choose_node-some, choose_node-none}
use k3_control_plane.Controller.{Controller, known_nodes, live_set}
use k3_control_plane.Controller.Ids.{Env}
use k3_control_plane.Controller.Fresh.{IsSpread, next_assignment_id_total}
use k3_control_plane.Controller.Placement.{OneTimeout, chosen_live}
use k3_control_plane.Controller.Jobs.{
  job_assignment, report_job, active_status, last_id, start_attempt, finish_job, empty_scan,
  reconcile_job,
}
use k3_control_plane.Controller.Jobs.Scanned.{
  is_success, is_failure, is_underway, scan_success, scan_seen,
}

-- A status report leaves the assignments alone.
pub report_job-assignments :
    (c : Controller) (j : Job) (status : JobStatus)
    → (report_job c j status).store.assignments ≡ c.store.assignments
unfolding report_job update_job_status
report_job-assignments c j status = ground arith

report_job-IsKeyed :
    (c : Controller) (j : Job) (status : JobStatus)
    → IsKeyed c.store
    → IsKeyed (report_job c j status).store
unfolding report_job
report_job-IsKeyed c j status h = update_job_status-IsKeyed c.store j.name status h

last_id-failures :
    (status : JobStatus) (latest : Option Assignment)
    → (last_id status latest).failed_attempts ≡ status.failed_attempts
unfolding last_id
last_id-failures status none = refl
last_id-failures status (some a) = refl

pub count_le_length :
    (p : Assignment → Bool) (list : List Assignment) → count_by p list ≤ length list
count_le_length p [] = omega arith
count_le_length p (a ∷ list) = ground (arith, count_le_length p list)

-- The node has room for the job, and whatever else it asks for.
abbrev pub CanRun : Time → Job → Controller → Node → Type 0
CanRun now j c = Eligible c.scheduler now (list_assignments c.store) j.resources j.placement []

-- The attempt after `failures` failed ones is stored under an unused ID, on a live node: the eligible
-- one with the smallest ID.
pub record NewAttempt (now : Time) (j : Job) (failures : ℕ) (c c' : Controller) : Type 0 where
  pub id : String
  pub node_id : String
  pub unused : Assoc.get id c.store.assignments ≡ none
  pub on_live : Assoc.has node_id (live_set now c) ≡ true
  pub on_eligible : (n : Node) × In n (known_nodes c) × (n.id ≡ node_id) × CanRun now j c n
  pub on_least : (m : Node) → In m (known_nodes c) → CanRun now j c m → str_ltb m.id node_id ≡ false
  pub saved :
      c'.store.assignments
      ≡ Assoc.put id (job_assignment j id node_id (pos (failures + 1)) now) c.store.assignments

-- No node is eligible for the job.
abbrev pub NoNodeFor : Time → Job → Controller → Type 0
NoNodeFor now j c = (m : Node) → In m (known_nodes c) → ¬ CanRun now j c m

save_assignment-assignments :
    (s : MemoryStore) (a : Assignment)
    → (save_assignment s a).assignments ≡ Assoc.put a.id a s.assignments
unfolding save_assignment
save_assignment-assignments s a = rw clone_assignment_lem refl

module _ (env : Env) (fuel : ℕ) (now : Time) (c : Controller) (j : Job) (h : IsKeyed c.store)
    (one : OneTimeout c) (spread : IsSpread env fuel)
    (room : length c.store.assignments < fuel) where
  start_attempt_lem :
      (status : JobStatus) (failures : ℕ)
      → status.failed_attempts ≡ pos failures
      → failures + 1 < 2 ^ 63
      → (c' : Controller) × (start_attempt env fuel now c j status ≡ some c')
        × IsKeyed c'.store
        × (((c'.store.assignments ≡ c.store.assignments)
              × ((ltb_ℤ j.retries (pos failures) ≡ true) ⊎ NoNodeFor now j c))
            ⊎ ((ltb_ℤ j.retries (pos failures) ≡ false) × NewAttempt now j failures c c'))
  unfolding start_attempt job_assignment
  start_attempt_lem status failures e small =
      let node =
        choose_node c.scheduler now (known_nodes c) (list_assignments c.store) j.resources
          j.placement [] in
      elim (Bool-cases (ltb_ℤ j.retries (pos failures))) [
        | inl spent ↦ (
          report_job c j status,
          rw (ap (ltb_ℤ j.retries) e ∙ spent, start_attempt) refl,
          report_job-IsKeyed c j status h,
          inl (report_job-assignments c j status, inl spent),
        )
        | inr left ↦ elim (Option-cases node) [
          | inl nowhere ↦ (
            report_job c j status,
            rw (ap (ltb_ℤ j.retries) e ∙ left, nowhere, start_attempt) refl,
            report_job-IsKeyed c j status h,
            inl (
              report_job-assignments c j status,
              inr λ m i e.
                  choose_node-none c.scheduler now (known_nodes c) (list_assignments c.store)
                    j.resources j.placement [] m nowhere i e,
            ),
          )
          | inr (node_id, chosen) ↦
              let attempt : add64 status.failed_attempts (pos 1) ≡ pos (failures + 1) =
                ap (λ n. add64 n (pos 1)) e ∙ add64_exact failures 1 small in
              let (id, draws, drawn, unused) =
                next_assignment_id_total env fuel c.store j.name (pos (failures + 1)) c.draws spread
                  room in
              let (eligible, least) =
                choose_node-some c.scheduler now (known_nodes c) (list_assignments c.store)
                  j.resources j.placement [] chosen in
              let a = job_assignment j id node_id (pos (failures + 1)) now in
              let saved = record c { store = save_assignment c.store a; draws = draws } in
              let status' = record status { active_assignment_id = id; last_assignment_id = id } in
              (
                report_job saved j status',
                rw (ap (ltb_ℤ j.retries) e ∙ left, chosen, attempt, drawn, start_attempt)
                    (rw attempt refl),
                report_job-IsKeyed saved j status' (save_assignment-IsKeyed c.store a h),
                inr (
                  left,
                  record {
                    id = id;
                    node_id = node_id;
                    unused = unused;
                    on_live =
                        chosen_live now c (list_assignments c.store) j.resources j.placement [] h
                          one chosen;
                    on_eligible = eligible;
                    on_least = least;
                    saved =
                        report_job-assignments saved j status'
                        ∙ save_assignment-assignments c.store a;
                  },
                ),
              )
        ]
      ]

  -- A round for one job returns. It makes no new attempt if one has succeeded, if one is active
  -- on a live node, if more have failed than there are retries, or if no node is eligible;
  -- otherwise it stores exactly one new assignment, numbered one more than the failed ones, under
  -- an unused ID, on a live node that is eligible for the job and has the smallest ID of those.
  -- The store is well-formed, the timeouts agree, the random source does not repeat itself too
  -- soon, and the job has fewer than 2^63 - 1 assignments.
  pub reconcile_job_attempts :
      length (list_assignments_for_owner c.store job j.name) + 1 < 2 ^ 63
      → (c' : Controller) × (reconcile_job env fuel now c j ≡ some c')
        × IsKeyed c'.store
        × (((c'.store.assignments ≡ c.store.assignments)
              × ((0 < count_by is_success (list_assignments_for_owner c.store job j.name))
                  ⊎ (0
                      < count_by
                          (is_underway (live_set now c))
                          (list_assignments_for_owner c.store job j.name))
                  ⊎ (ltb_ℤ j.retries
                        (pos (count_by is_failure (list_assignments_for_owner c.store job j.name)))
                      ≡ true)
                  ⊎ NoNodeFor now j c))
            ⊎ ((count_by is_success (list_assignments_for_owner c.store job j.name) ≡ 0)
                × (count_by
                      (is_underway (live_set now c))
                      (list_assignments_for_owner c.store job j.name)
                    ≡ 0)
                × (ltb_ℤ j.retries
                      (pos (count_by is_failure (list_assignments_for_owner c.store job j.name)))
                    ≡ false)
                × NewAttempt now j
                    (count_by is_failure (list_assignments_for_owner c.store job j.name))
                    c
                    c'))
  unfolding reconcile_job finish_job last_id
  reconcile_job_attempts small =
      let list = list_assignments_for_owner c.store job j.name in
      let live = live_set now c in
      let kept = λ (status : JobStatus). report_job-assignments c j status in
      elim (Bool-cases (ltb 0 (count_by is_success list))) [
        | inl done ↦
            let (status, e) = scan_success live list empty_scan (ground (arith, done)) in
            (
              report_job c j status,
              rw (e, reconcile_job, finish_job) refl,
              report_job-IsKeyed c j status h,
              inl (kept status, inl (ground (arith, done))),
            )
        | inr undone ↦
            let (acc, e, failures, active) =
              scan_seen live list empty_scan 0 (ground (arith, undone)) refl
                (omega (arith, small)) in
            elim (Option-cases acc.active) [
              | inl idle ↦
                  let none_underway : count_by (is_underway live) list ≡ 0 =
                    ground (arith, active, idle) in
                  let (c', run, keyed, outcome) =
                    start_attempt_lem (last_id acc.status acc.latest_terminal)
                      (count_by is_failure list)
                      (last_id-failures acc.status acc.latest_terminal
                        ∙ failures
                        ∙ ap pos (omega arith))
                      (omega (arith, small, count_le_length is_failure list)) in
                  (
                    c',
                    rw (e, idle, reconcile_job, finish_job) run,
                    keyed,
                    elim outcome [
                      | inl (same, why) ↦ inl (same, inr (inr why))
                      | inr (left, new) ↦ inr (ground (arith, undone), none_underway, left, new)
                    ],
                  )
              | inr (a, busy) ↦ (
                report_job c j (active_status acc.status a),
                rw (e, busy, reconcile_job, finish_job) refl,
                report_job-IsKeyed c j (active_status acc.status a) h,
                inl (kept _, inr (inl (ground (arith, active, busy)))),
              )
            ]
      ]
