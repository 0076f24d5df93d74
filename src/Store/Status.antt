-- ===== src/Store/Status.antt =====
-- `UpdateAssignmentStatus` and `applyStatus` (internal/store/assignments.go).
use k3_control_plane.Base.{
  String, true, false, ◌≡◌, refl, none, some, Bool-cases, inl, inr, arith, ◌==◌, eq_iff,
  if◌then◌else◌,
}
use k3_control_plane.Base.Assoc
use k3_control_plane.Base.Assoc.{get-put}
use k3_control_plane.Api.{Time, Assignment}
use k3_control_plane.Api.Phases.{Phase, is_terminal_phase}
use k3_control_plane.Api.Clone.{clone_assignment_lem}
use k3_control_plane.Store.{MemoryStore, apply_status, update_assignment_status}

-- A terminal phase is final: no report changes the assignment, or any other part of the store.
pub update_terminal :
    (s : MemoryStore) (id : String) (phase : Phase) (message : String) (now : Time) {a : Assignment}
    → Assoc.get id s.assignments ≡ some a
    → is_terminal_phase a.phase ≡ true
    → update_assignment_status s id phase message now ≡ (s, some a)
unfolding update_assignment_status apply_status
update_terminal s id phase message now {a} g t =
    rw (g, update_assignment_status) (rw (t, clone_assignment_lem) refl)

apply_status_same :
    (a : Assignment) (phase : Phase) (message : String) (now : Time)
    → (apply_status a phase message now).1 ≡ false
    → (apply_status a phase message now).0 ≡ a
unfolding apply_status
apply_status_same a phase message now h = ground arith

-- A report on a stored assignment leaves under its ID what applying the report gives, and leaves
-- every other ID as it was.
pub get-update_assignment_status :
    (s : MemoryStore) (id j : String) (phase : Phase) (message : String) (now : Time)
    {a : Assignment}
    → Assoc.get id s.assignments ≡ some a
    → Assoc.get j (update_assignment_status s id phase message now).0.assignments
      ≡ (if id == j then some (apply_status a phase message now).0 else Assoc.get j s.assignments)
unfolding update_assignment_status
get-update_assignment_status s id j phase message now {a} g =
    rw (g, update_assignment_status)
      (elim (Bool-cases (apply_status a phase message now).1) [
        | inl c ↦ rw c (get-put id j _ s.assignments)
        | inr c ↦ rw (c, apply_status_same a phase message now c) (ground (arith, eq_iff id j))
      ])

-- An update writes to the assignments alone.
pub update_assignment_status_frame :
    (s : MemoryStore) (id : String) (phase : Phase) (message : String) (now : Time)
    → ((update_assignment_status s id phase message now).0.nodes ≡ s.nodes)
      × ((update_assignment_status s id phase message now).0.services ≡ s.services)
      × ((update_assignment_status s id phase message now).0.jobs ≡ s.jobs)
unfolding update_assignment_status
update_assignment_status_frame s id phase message now = (ground arith, ground arith, ground arith)

-- On a missing ID nothing is written, and nothing returned.
pub update_missing :
    (s : MemoryStore) (id : String) (phase : Phase) (message : String) (now : Time)
    → Assoc.get id s.assignments ≡ none
    → update_assignment_status s id phase message now ≡ (s, none)
unfolding update_assignment_status
update_missing s id phase message now g = rw (g, update_assignment_status)
