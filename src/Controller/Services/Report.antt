-- ===== src/Controller/Services/Report.antt =====
-- The status that `reconcileService` (internal/controller/services.go) reports.
use mathlib.Core.List.{append_assoc, append-nil}
use k3_control_plane.Base.{
  ℕ, ◌+◌, ◌^◌, ◌<◌, Bool, ◌&&◌, ◌≡◌, refl, sym, ap, ◌∙◌, List, [], ◌∷◌, ◌++◌, map, Bool-cases, inl,
  inr, arith, length, filter_by, count_by, str_ltb, if◌then◌else◌,
}
use k3_control_plane.Base.Int.{ℤ, pos, add64, add64_exact}
use k3_control_plane.Base.Sort.{sort_by}
use k3_control_plane.Api.{Time, Service, ServiceStatus, Assignment}
use k3_control_plane.Api.Phases.{service, pending, running, phase_eq}
use k3_control_plane.Store.{MemoryStore, list_assignments_for_owner}
use k3_control_plane.Scheduler.{StringSet}
use k3_control_plane.Controller.Services.{is_active_live, add_one, add_to_status, service_status}

-- The assignment counts, and is in the phase.
abbrev pub is_live_pending : StringSet → Assignment → Bool
is_live_pending live a = is_active_live live a && phase_eq a.phase pending

abbrev pub is_live_running : StringSet → Assignment → Bool
is_live_running live a = is_active_live live a && phase_eq a.phase running

count_one : (z : ℤ) (n : ℕ) → z ≡ pos n → n + 1 < 2 ^ 63 → add64 z (pos 1) ≡ pos (n + 1)
count_one z n e room = ap (λ x. add64 x (pos 1)) e ∙ add64_exact n 1 room

module _ (live : StringSet) (a : Assignment) (status : ServiceStatus) where
  running-add_one :
      (n : ℕ)
      → status.running_replicas ≡ pos n
      → n + 1 < 2 ^ 63
      → (add_one live a status).running_replicas
        ≡ pos (n + (if is_live_running live a then 1 else 0))
  unfolding add_one
  running-add_one n e room = ground (arith, count_one status.running_replicas n e room, e)

  pending-add_one :
      (n : ℕ)
      → status.pending_replicas ≡ pos n
      → n + 1 < 2 ^ 63
      → (add_one live a status).pending_replicas
        ≡ pos (n + (if is_live_pending live a then 1 else 0))
  unfolding add_one
  pending-add_one n e room = ground (arith, count_one status.pending_replicas n e room, e)

  ids-add_one : (add_one live a status).assignment_ids ≡ (
      if is_active_live live a then status.assignment_ids ++ a.id ∷ [] else status.assignment_ids)
  unfolding add_one
  ids-add_one = ground arith

module _ (live : StringSet) where
  running-add_to_status :
      (list : List Assignment) (status : ServiceStatus) (n : ℕ)
      → status.running_replicas ≡ pos n
      → n + length list < 2 ^ 63
      → (add_to_status live list status).running_replicas
        ≡ pos (n + count_by (is_live_running live) list)
  unfolding add_to_status
  running-add_to_status [] status n e room = e ∙ ap pos (omega arith)
  running-add_to_status (a ∷ rest) status n e room =
      let k = if is_live_running live a then 1 else 0 in
      running-add_to_status rest (add_one live a status) (n + k)
        (running-add_one live a status n e (omega (arith, room))) (ground (arith, room))
      ∙ ap pos (ground arith)

  pending-add_to_status :
      (list : List Assignment) (status : ServiceStatus) (n : ℕ)
      → status.pending_replicas ≡ pos n
      → n + length list < 2 ^ 63
      → (add_to_status live list status).pending_replicas
        ≡ pos (n + count_by (is_live_pending live) list)
  unfolding add_to_status
  pending-add_to_status [] status n e room = e ∙ ap pos (omega arith)
  pending-add_to_status (a ∷ rest) status n e room =
      let k = if is_live_pending live a then 1 else 0 in
      pending-add_to_status rest (add_one live a status) (n + k)
        (pending-add_one live a status n e (omega (arith, room))) (ground (arith, room))
      ∙ ap pos (ground arith)

  desired-add_to_status :
      (list : List Assignment) (status : ServiceStatus)
      → (add_to_status live list status).desired_replicas ≡ status.desired_replicas
  unfolding add_to_status add_one
  desired-add_to_status [] status = refl
  desired-add_to_status (a ∷ rest) status =
      desired-add_to_status rest (add_one live a status) ∙ ground arith

  ids-add_to_status :
      (list : List Assignment) (status : ServiceStatus)
      → (add_to_status live list status).assignment_ids
        ≡ status.assignment_ids
          ++ map (λ (a : Assignment). a.id) (filter_by (is_active_live live) list)
  unfolding add_to_status filter_by
  ids-add_to_status [] status = sym (append-nil status.assignment_ids)
  ids-add_to_status (a ∷ rest) status = elim (Bool-cases (is_active_live live a)) [
    | inl counts ↦
        let one : (add_one live a status).assignment_ids ≡ status.assignment_ids ++ a.id ∷ [] =
          ids-add_one live a status ∙ rw counts refl in
        ids-add_to_status rest (add_one live a status)
        ∙ rw (one, counts) (append_assoc status.assignment_ids (a.id ∷ []) _)
    | inr not_counted ↦
        let one : (add_one live a status).assignment_ids ≡ status.assignment_ids =
          ids-add_one live a status ∙ rw not_counted refl in
        ids-add_to_status rest (add_one live a status) ∙ rw (one, not_counted) refl
  ]

-- The status of a service reports the number wanted, how many of its active assignments on live
-- nodes are running and how many pending, and the IDs of all of these in order, if it has fewer
-- than 2^63 assignments.
pub service_status_counts :
    (live : StringSet) (now : Time) (v : Service) (s : MemoryStore)
    → length (list_assignments_for_owner s service v.name) < 2 ^ 63
    → ((service_status live now v s).desired_replicas ≡ v.replicas)
      × ((service_status live now v s).running_replicas
          ≡ pos (count_by (is_live_running live) (list_assignments_for_owner s service v.name)))
      × ((service_status live now v s).pending_replicas
          ≡ pos (count_by (is_live_pending live) (list_assignments_for_owner s service v.name)))
      × ((service_status live now v s).assignment_ids
          ≡ sort_by str_ltb (
              map
                (λ (a : Assignment). a.id)
                (filter_by (is_active_live live) (list_assignments_for_owner s service v.name))))
unfolding service_status
service_status_counts live now v s room =
    let list = list_assignments_for_owner s service v.name in
    let room' : 0 + length list < 2 ^ 63 = omega (arith, room) in
    (
      desired-add_to_status live list _,
      running-add_to_status live list _ 0 refl room' ∙ ap pos (omega arith),
      pending-add_to_status live list _ 0 refl room' ∙ ap pos (omega arith),
      ap (sort_by str_ltb) (ids-add_to_status live list _),
    )
