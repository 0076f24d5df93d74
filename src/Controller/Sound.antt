-- ===== src/Controller/Sound.antt =====
-- What a round (`Reconcile` of internal/controller/controller.go) keeps of the controller, one part of the
-- round after the other.
use k3_control_plane.Base.{
  ℕ, zero, suc, ◌≡◌, refl, ap, subst, nat_eq, Option, none, some, List, [], ◌∷◌, Bool-cases,
  Option-cases, inl, inr, not, length,
}
use mathlib.Core.Bool.{false≢true}
use mathlib.Core.Option.{none-ne-some, some-injective}
use k3_control_plane.Base.Int.{pos, ltb_ℤ, add64, sub64}
use k3_control_plane.Base.Assoc
use k3_control_plane.Api.{Time, Service, Job, JobStatus, Assignment}
use k3_control_plane.Api.Phases.{is_active_phase, lost, is_terminal_phase, phase_eq}
use k3_control_plane.Store.{MemoryStore, list_assignments, list_services, list_jobs}
use k3_control_plane.Store.Admissible.{IsAdmissible, update_assignment_status-IsAdmissible}
use k3_control_plane.Store.Admissible.Rounds.{
  save_assignment-IsAdmissible, delete_assignment-IsAdmissible, update_service_status-IsAdmissible,
  update_job_status-IsAdmissible,
}
use k3_control_plane.Scheduler.{StringSet, choose_node}
use k3_control_plane.Controller.{
  Controller, known_nodes, live_set, lost_message, mark_lost, mark_lost_assignments,
}
use k3_control_plane.Controller.Ids.{Env, next_assignment_id}
use k3_control_plane.Controller.Placement.{OneTimeout}
use k3_control_plane.Controller.Services.{
  delete_all, service_assignment, active_of, pick_assignments_to_remove, scale_down, fill,
  missing_replicas, reconcile_service,
}
use k3_control_plane.Controller.Jobs.{
  job_assignment, report_job, ScanEnd, success, seen, start_attempt, finish_job, reconcile_job,
}
use k3_control_plane.Controller.Reconcile.{
  note_start, reconcile_services, reconcile_jobs, reconcile,
}

-- The store is admissible, and the timeouts agree.
pub record IsSound (c : Controller) : Type 0 where
  pub admissible : IsAdmissible c.store
  pub one : OneTimeout c

-- So is the controller that a part of the round returns, if it returns one.
abbrev pub Keeps : Option Controller → Type 0
Keeps none = Unit
Keeps (some c) = IsSound c

delete_all-IsAdmissible :
    (xs : List Assignment) (s : MemoryStore) → IsAdmissible s → IsAdmissible (delete_all xs s)
unfolding delete_all
delete_all-IsAdmissible [] s h = h
delete_all-IsAdmissible (a ∷ xs) s h =
    delete_all-IsAdmissible xs _ (delete_assignment-IsAdmissible s a.id h)

mark_lost-IsAdmissible :
    (now : Time) (live : StringSet) (xs : List Assignment) (s : MemoryStore)
    → IsAdmissible s
    → IsAdmissible (mark_lost now live xs s)
unfolding mark_lost
mark_lost-IsAdmissible now live [] s h = h
mark_lost-IsAdmissible now live (a ∷ xs) s h = elim (Bool-cases (not (is_active_phase a.phase))) [
  | inl e ↦ rw e (mark_lost-IsAdmissible now live xs s h)
  | inr e ↦ elim (Bool-cases (Assoc.has a.node_id live)) [
    | inl d ↦ rw (e, d) (mark_lost-IsAdmissible now live xs s h)
    | inr d ↦
        rw (e, d)
          (mark_lost-IsAdmissible now live xs _
            (update_assignment_status-IsAdmissible s a.id lost (lost_message a.node_id) now h))
  ]
]

scale_down-IsSound :
    (live : StringSet) (c : Controller) (v : Service) (c' : Controller) (active : List Assignment)
    → IsSound c
    → scale_down live c v ≡ some (c', active)
    → IsSound c'
unfolding scale_down
scale_down-IsSound live c v c' active h =
    let before = active_of live c.store v in
    let P : Option (Controller × List Assignment) → Type 0 =
      λ o. o ≡ some (c', active) → IsSound c' in
    let same : (d : Controller) (xs : List Assignment) → IsSound d → P (some (d, xs)) = λ d xs k e.
      subst IsSound (ap (λ (x : Controller × List Assignment). x.0) (some-injective _ _ e)) k in
    let result : P (scale_down live c v) =
      elim (Bool-cases (ltb_ℤ v.replicas (pos (length before)))) [
        | inr few ↦ rw (few, scale_down) (same c before h)
        | inl many ↦
            elim (Option-cases
              (pick_assignments_to_remove before (sub64 (pos (length before)) v.replicas))) [
                | inl panic ↦ rw (many, panic, scale_down) λ e. absurd (none-ne-some _ e)
                | inr (excess, e) ↦
                    rw (many, e, scale_down)
                      (same _ _ (record {
                        admissible = delete_all-IsAdmissible excess c.store h.admissible;
                        one = h.one;
                      }))
              ]
      ] in
    result

module _ (env : Env) (fuel : ℕ) (now : Time) where
  fill-Keeps :
      (v : Service) (missing : ℕ) (c : Controller)
      → IsSound c
      → Keeps (fill env fuel now v missing c)
  unfolding fill service_assignment is_terminal_phase phase_eq
  fill-Keeps v zero c h = h
  fill-Keeps v (suc missing) c h =
      elim (Option-cases (
        choose_node c.scheduler now (known_nodes c) (list_assignments c.store) v.resources
          v.placement v.ports)) [
            | inl nowhere ↦ rw (nowhere, fill) h
            | inr (node_id, chosen) ↦
                elim (Option-cases (next_assignment_id env fuel c.store v.name (pos 1) c.draws)) [
                  | inl stuck ↦ rw (chosen, stuck, fill) tt
                  | inr ((id, draws), found) ↦
                      let a = service_assignment v id node_id now in
                      rw (chosen, found, fill)
                        (fill-Keeps v missing _ (record {
                          admissible =
                              save_assignment-IsAdmissible c.store a
                                (refl, λ e. absurd (false≢true e)) h.admissible;
                          one = h.one;
                        }))
                ]
          ]

  reconcile_service-Keeps :
      (c : Controller) (v : Service) → IsSound c → Keeps (reconcile_service env fuel now c v)
  unfolding reconcile_service
  reconcile_service-Keeps c v h = elim (Option-cases (scale_down (live_set now c) c v)) [
    | inl stuck ↦ rw (stuck, reconcile_service) tt
    | inr ((c', active), e) ↦
        let h' = scale_down-IsSound (live_set now c) c v c' active h e in
        elim (Option-cases (fill env fuel now v (missing_replicas v active) c')) [
          | inl stuck ↦ rw (e, stuck, reconcile_service) tt
          | inr (c'', e') ↦
              let h'' = subst Keeps e' (fill-Keeps v (missing_replicas v active) c' h') in
              rw (e, e', reconcile_service)
                (record {
                  admissible = update_service_status-IsAdmissible c''.store v.name _ h''.admissible;
                  one = h''.one;
                })
        ]
  ]

  report_job-IsSound :
      (c : Controller) (j : Job) (status : JobStatus) → IsSound c → IsSound (report_job c j status)
  unfolding report_job
  report_job-IsSound c j status h = record {
    admissible = update_job_status-IsAdmissible c.store j.name status h.admissible;
    one = h.one;
  }

  start_attempt-Keeps :
      (c : Controller) (j : Job) (status : JobStatus)
      → IsSound c
      → Keeps (start_attempt env fuel now c j status)
  unfolding start_attempt job_assignment is_terminal_phase phase_eq
  start_attempt-Keeps c j status h = elim (Bool-cases (ltb_ℤ j.retries status.failed_attempts)) [
    | inl spent ↦ rw (spent, start_attempt) (report_job-IsSound c j status h)
    | inr left ↦
        elim (Option-cases (
          choose_node c.scheduler now (known_nodes c) (list_assignments c.store) j.resources
            j.placement [])) [
              | inl nowhere ↦ rw (left, nowhere, start_attempt) (report_job-IsSound c j status h)
              | inr (node_id, chosen) ↦
                  let attempt = add64 status.failed_attempts (pos 1) in
                  elim (Option-cases (next_assignment_id env fuel c.store j.name attempt c.draws)) [
                    | inl stuck ↦ rw (left, chosen, stuck, start_attempt) tt
                    | inr ((id, draws), found) ↦
                        let a = job_assignment j id node_id attempt now in
                        rw (left, chosen, found, start_attempt)
                          (report_job-IsSound _ j _ (record {
                            admissible =
                                save_assignment-IsAdmissible c.store a
                                  (refl, λ e. absurd (false≢true e)) h.admissible;
                            one = h.one;
                          }))
                  ]
            ]
  ]

  finish_job-Keeps :
      (c : Controller) (j : Job) (end : ScanEnd)
      → IsSound c
      → Keeps (finish_job env fuel now c j end)
  unfolding finish_job
  finish_job-Keeps c j (success status) h = report_job-IsSound c j status h
  finish_job-Keeps c j (seen acc) h = elim (Option-cases acc.active) [
    | inl idle ↦ rw (idle, finish_job) (start_attempt-Keeps c j _ h)
    | inr (a, busy) ↦ rw (busy, finish_job) (report_job-IsSound c j _ h)
  ]

  reconcile_services-Keeps :
      (vs : List Service) (c : Controller)
      → IsSound c
      → Keeps (reconcile_services env fuel now vs c)
  unfolding reconcile_services
  reconcile_services-Keeps [] c h = h
  reconcile_services-Keeps (v ∷ vs) c h = elim (Option-cases (reconcile_service env fuel now c v)) [
    | inl stuck ↦ rw (stuck, reconcile_services) tt
    | inr (c', e) ↦
        rw (e, reconcile_services)
          (reconcile_services-Keeps vs c' (subst Keeps e (reconcile_service-Keeps c v h)))
  ]

  reconcile_jobs-Keeps :
      (js : List Job) (c : Controller) → IsSound c → Keeps (reconcile_jobs env fuel now js c)
  unfolding reconcile_jobs reconcile_job
  reconcile_jobs-Keeps [] c h = h
  reconcile_jobs-Keeps (j ∷ js) c h = elim (Option-cases (reconcile_job env fuel now c j)) [
    | inl stuck ↦ rw (stuck, reconcile_jobs) tt
    | inr (c', e) ↦
        rw (e, reconcile_jobs)
          (reconcile_jobs-Keeps js c' (subst Keeps e (finish_job-Keeps c j _ h)))
  ]

  note_start-IsSound : (c : Controller) → IsSound c → IsSound (note_start now c)
  unfolding note_start
  note_start-IsSound c h = elim (Bool-cases (nat_eq c.started_at 0)) [
    | inl e ↦ rw (e, note_start) (record { admissible = h.admissible; one = h.one })
    | inr e ↦ rw (e, note_start) h
  ]

  marked-IsSound : (c : Controller) → IsSound c → IsSound (mark_lost_assignments now c)
  unfolding mark_lost_assignments
  marked-IsSound c h = record {
    admissible = mark_lost-IsAdmissible now _ _ c.store h.admissible;
    one = h.one;
  }

  pub reconcile-Keeps : (c : Controller) → IsSound c → Keeps (reconcile env fuel now c)
  unfolding reconcile
  reconcile-Keeps c h =
      let c' = mark_lost_assignments now (note_start now c) in
      let h' = marked-IsSound (note_start now c) (note_start-IsSound c h) in
      elim (Option-cases (reconcile_services env fuel now (list_services c'.store) c')) [
        | inl stuck ↦ rw (stuck, reconcile) tt
        | inr (c'', e) ↦
            rw (e, reconcile)
              (reconcile_jobs-Keeps (list_jobs c''.store) c''
                (subst Keeps e (reconcile_services-Keeps (list_services c'.store) c' h')))
      ]
