-- ===== src/Controller/Jobs/Scanned.antt =====
-- The loop of `reconcileJob` (internal/controller/jobs.go) over the assignments of a job.
use k3_control_plane.Base.{
  ℕ, ◌+◌, ◌^◌, ◌<◌, ltb, Bool, true, false, ◌&&◌, ◌||◌, ◌≡◌, refl, ap, ◌∙◌, Option, none, some,
  List, [], ◌∷◌, Bool-cases, inl, inr, arith, length, count_by, if◌then◌else◌,
}
use k3_control_plane.Base.Int.{pos, add64, add64_exact}
use k3_control_plane.Base.Assoc
use k3_control_plane.Api.{JobStatus, Assignment}
use k3_control_plane.Api.Phases.{Phase, succeeded, failed, phase_eq, phase_eq_iff, is_active_phase}
use k3_control_plane.Scheduler.{StringSet}
use k3_control_plane.Controller.Jobs.{Scan, success, seen, scan_assignment, scan_assignments}

abbrev pub is_success : Assignment → Bool
is_success a = phase_eq a.phase succeeded

abbrev pub is_failure : Assignment → Bool
is_failure a = phase_eq a.phase failed

-- The assignment is active, on a live node.
abbrev pub is_underway : StringSet → Assignment → Bool
is_underway live a = is_active_phase a.phase && Assoc.has a.node_id live

abbrev pub is_some : Option Assignment → Bool
is_some none = false
is_some (some _) = true

failed_not_active : (p : Phase) → phase_eq p failed ≡ true → is_active_phase p ≡ false
unfolding is_active_phase phase_eq
failed_not_active p h = rw ((phase_eq_iff p failed).0 h) refl

failures_one :
    (live : StringSet) (a : Assignment) (acc : Scan) (f : ℕ)
    → acc.status.failed_attempts ≡ pos f
    → f + 1 < 2 ^ 63
    → (scan_assignment live a acc).status.failed_attempts ≡ pos (if is_failure a then f + 1 else f)
unfolding scan_assignment
failures_one live a acc f e room = elim (Bool-cases (is_failure a)) [
  | inl failed' ↦
      rw (failed_not_active a.phase failed', failed')
        (ap (λ n. add64 n (pos 1)) e ∙ add64_exact f 1 room)
  | inr other ↦ ground (arith, other, e)
]

active_one :
    (live : StringSet) (a : Assignment) (acc : Scan)
    → is_some (scan_assignment live a acc).active ≡ (is_underway live a || is_some acc.active)
unfolding scan_assignment
active_one live a acc = ground arith

-- With a success among them, the loop returns early.
pub scan_success :
    (live : StringSet) (list : List Assignment) (acc : Scan)
    → 0 < count_by is_success list
    → (status : JobStatus) × (scan_assignments live list acc ≡ success status)
unfolding scan_assignments
scan_success live [] acc h = absurd (omega (arith, h))
scan_success live (a ∷ rest) acc h = elim (Bool-cases (is_success a)) [
  | inl e ↦ (
    record (acc.status) {
      succeeded = true;
      completed_at = a.finished_at;
      last_assignment_id = a.id;
    },
    rw e refl,
  )
  | inr e ↦
      let (status, later) =
        scan_success live rest (scan_assignment live a acc) (ground (arith, e, h)) in
      (status, rw (e, later) refl)
]

-- With none, it counts the failures, and finds an active assignment on a live node if there is one.
pub scan_seen :
    (live : StringSet) (list : List Assignment) (acc : Scan) (f : ℕ)
    → count_by is_success list ≡ 0
    → acc.status.failed_attempts ≡ pos f
    → f + length list < 2 ^ 63
    → (acc' : Scan) × (scan_assignments live list acc ≡ seen acc')
      × (acc'.status.failed_attempts ≡ pos (f + count_by is_failure list))
      × (is_some acc'.active ≡ (ltb 0 (count_by (is_underway live) list) || is_some acc.active))
unfolding scan_assignments
scan_seen live [] acc f h e room = (acc, refl, e ∙ ap pos (omega arith), refl)
scan_seen live (a ∷ rest) acc f h e room =
    let none_done : is_success a ≡ false = ground (arith, h) in
    let f' = if is_failure a then f + 1 else f in
    let (acc', run, failures, active) =
      scan_seen live rest (scan_assignment live a acc) f' (ground (arith, h))
        (failures_one live a acc f e (omega (arith, room))) (ground (arith, room)) in
    (
      acc',
      rw (none_done, run) refl,
      failures ∙ ap pos (ground arith),
      active ∙ ground (arith, active_one live a acc),
    )
