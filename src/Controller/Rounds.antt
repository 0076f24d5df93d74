-- ===== src/Controller/Rounds.antt =====
-- `Reconcile` of internal/controller/controller.go: a whole round returns.
use k3_control_plane.Base.{
  ℕ, ◌+◌, ◌^◌, ◌≤◌, ◌<◌, ◌≡◌, refl, sym, ap, ◌∙◌, subst, some, List, [], ◌∷◌, All, arith, length,
}
use k3_control_plane.Base.Int.{pos_part, neg_part}
use k3_control_plane.Base.Assoc
use k3_control_plane.Base.Assoc.{Assoc}
use k3_control_plane.Api.{Time, Service, Job}
use k3_control_plane.Store.{MemoryStore, list_services, list_jobs, list_assignments}
use k3_control_plane.Store.Keyed.{IsKeyed}
use k3_control_plane.Scheduler.{StringSet}
use k3_control_plane.Scheduler.{Scheduler}
use k3_control_plane.Controller.{Controller, live_set, mark_lost_assignments}
use k3_control_plane.Controller.Ids.{Env}
use k3_control_plane.Controller.Fresh.{IsSpread}
use k3_control_plane.Controller.Placement.{OneTimeout}
use k3_control_plane.Controller.Stepped.{Stepped, trans_steps}
use k3_control_plane.Controller.Services.Removal.{is_replica, replicas_in}
use k3_control_plane.Controller.Services.Converge.{reconcile_service-Stepped}
use k3_control_plane.Controller.Jobs.Attempts.{count_le_length}
use k3_control_plane.Controller.Jobs.Step.{length-values, reconcile_job-Stepped}
use k3_control_plane.Controller.Marked.{Marked, mark_lost-Marked}
use k3_control_plane.Controller.Reconcile.{
  note_start, reconcile_services, reconcile_jobs, reconcile,
}

-- How many replicas are wanted in all.
abbrev pub wanted : List Service → ℕ
wanted [] = 0
wanted (v ∷ vs) = pos_part v.replicas + wanted vs

abbrev pub IsNatural : Service → Type 0
IsNatural v = neg_part v.replicas ≡ 0

replicas_in-le :
    (live : StringSet) (v : Service) (s : MemoryStore) → replicas_in live v s ≤ length s.assignments
replicas_in-le live v s = omega (
  arith,
  count_le_length (is_replica live v) (Assoc.values s.assignments),
  length-values s.assignments,
)

-- The loop over the services.
services_step :
    (env : Env) (fuel : ℕ) (now : Time) (vs : List Service) (c : Controller)
    → IsSpread env fuel
    → fuel < 2 ^ 63
    → All IsNatural vs
    → IsKeyed c.store
    → OneTimeout c
    → length c.store.assignments + wanted vs ≤ fuel
    → (c' : Controller) × (reconcile_services env fuel now vs c ≡ some c')
      × Stepped (wanted vs) c c'
      × (c'.store.jobs ≡ c.store.jobs)
unfolding reconcile_services
services_step env fuel now [] c spread small natural h one room =
    (c, refl, record { keyed = h; one = one; longer = omega arith }, refl)
services_step env fuel now (v ∷ vs) c spread small natural h one room =
    let (c₁, run, step, jobs, _) =
      reconcile_service-Stepped env fuel now c v h one spread natural.0
        (omega (arith, replicas_in-le (live_set now c) v c.store)) (omega arith) in
    let (c₂, runs, steps, jobs') =
      services_step env fuel now vs c₁ spread small natural.1 step.keyed step.one
        (omega (arith, step.longer)) in
    (
      c₂,
      rw (run, reconcile_services) runs,
      trans_steps (pos_part v.replicas) (wanted vs) (wanted (v ∷ vs)) c c₁ c₂ (omega arith) step
          steps,
      jobs' ∙ jobs,
    )

jobs_step :
    (env : Env) (fuel : ℕ) (now : Time) (js : List Job) (c : Controller)
    → IsSpread env fuel
    → fuel < 2 ^ 63
    → IsKeyed c.store
    → OneTimeout c
    → length c.store.assignments + length js ≤ fuel
    → (c' : Controller) × (reconcile_jobs env fuel now js c ≡ some c') × Stepped (length js) c c'
unfolding reconcile_jobs
jobs_step env fuel now [] c spread small h one room =
    (c, refl, record { keyed = h; one = one; longer = omega arith })
jobs_step env fuel now (j ∷ js) c spread small h one room =
    let (c₁, run, step) = reconcile_job-Stepped env fuel now c j spread small h one (omega arith) in
    let (c₂, runs, steps) =
      jobs_step env fuel now js c₁ spread small step.keyed step.one (omega (arith, step.longer)) in
    (
      c₂,
      rw (run, reconcile_jobs) runs,
      trans_steps 1 (length js) (length (j ∷ js)) c c₁ c₂ (omega arith) step steps,
    )

note_start_same :
    (now : Time) (c : Controller)
    → ((note_start now c).store ≡ c.store)
      × ((note_start now c).scheduler ≡ c.scheduler)
      × ((note_start now c).node_timeout ≡ c.node_timeout)
unfolding note_start
note_start_same now c = (ground arith, ground arith, ground arith)

-- A whole round of the controller returns, with a well-formed store: the marking of lost work,
-- then every service, then every job. The store is well-formed, the scheduler has the timeout of
-- the controller, no service wants a negative number of replicas, and the random source gives as
-- many different suffixes in a row as there are stored assignments, wanted replicas and jobs,
-- fewer than 2^63.
pub reconcile_returns :
    (env : Env) (fuel : ℕ) (now : Time) (c : Controller)
    → IsKeyed c.store
    → OneTimeout c
    → IsSpread env fuel
    → fuel < 2 ^ 63
    → All IsNatural (list_services c.store)
    → length c.store.assignments + wanted (list_services c.store) + length (list_jobs c.store)
      ≤ fuel
    → (c' : Controller) × (reconcile env fuel now c ≡ some c') × IsKeyed c'.store × OneTimeout c'
unfolding reconcile mark_lost_assignments list_services list_jobs
reconcile_returns env fuel now c h one spread small natural room =
    let c₀ = note_start now c in
    let (store, scheduler, timeout) = note_start_same now c in
    let h₀ : IsKeyed c₀.store = subst IsKeyed (sym store) h in
    let c₁ = mark_lost_assignments now c₀ in
    let m : Marked c.store c₁.store =
      subst (λ s. Marked s c₁.store) store
        (mark_lost-Marked now (live_set now c₀) (list_assignments c₀.store) c₀.store h₀) in
    let one₁ : OneTimeout c₁ =
      ap (λ (x : Scheduler). x.node_timeout) scheduler ∙ (one ∙ sym timeout) in
    let services : list_services c₁.store ≡ list_services c.store =
      ap (λ (x : Assoc Service). list_services (record c.store { services = x })) m.services in
    let natural₁ : All IsNatural (list_services c₁.store) =
      subst (All IsNatural) (sym services) natural in
    let wanted₁ = ap wanted services in
    let (c₂, run, step, jobs) =
      services_step env fuel now (list_services c₁.store) c₁ spread small natural₁ m.keyed one₁
        (omega (arith, room, m.size, wanted₁)) in
    let listed : list_jobs c₂.store ≡ list_jobs c.store =
      ap (λ (x : Assoc Job). list_jobs (record c.store { jobs = x })) (jobs ∙ m.jobs) in
    let (c₃, runs, steps) =
      jobs_step env fuel now (list_jobs c₂.store) c₂ spread small step.keyed step.one (
        omega
          (arith, room, m.size, wanted₁, step.longer, ap (λ (js : List Job). length js) listed)) in
    (c₃, rw (run, reconcile) runs, steps.keyed, steps.one)
