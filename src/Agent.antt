-- ===== src/Agent.antt =====
-- internal/agent (agent.go, sync.go): what an agent does with the assignments that the controller hands
-- out. The container runtime is an interface, `Executor` (internal/runtime/runtime.go), and so is a parameter; the
-- controller's answer to `FetchAssignments` is an argument, `none` for an error. Status updates go to
-- the controller and may be lost on the way; `sent` lists those that the agent tried to send.
--
-- Go does not say in which order a map is ranged over; here it is the order of first insertion.
pub mod Wanted
pub mod Sync
pub mod Simulated
use k3_control_plane.Base.{
  ℕ, String, Bool, true, false, Option, none, some, List, [], ◌∷◌, ◌++◌, if◌then◌else◌,
}
use k3_control_plane.Base.Assoc
use k3_control_plane.Base.Assoc.{Assoc}
use k3_control_plane.Api.{Assignment}
use k3_control_plane.Api.Phases.{Phase, failed, is_active_phase, is_terminal_phase}
use k3_control_plane.Scheduler.{StringSet}
use k3_control_plane.Runtime.{Reporter, Report}

-- `Executor`: a call gives the runtime after it, the reports made meanwhile, and an error if there is
-- one.
pub record Executor (X : Type 0) : Type 0 where
  pub start : X → Assignment → Reporter → X × List Report × Option String
  pub stop : X → String → X × List Report × Option String
  pub list : X → Option (List String)

pub record StatusUpdate : Type 0 where
  pub id : String
  pub phase : Phase
  pub message : String

-- The part of `Agent` that changes, with the runtime it drives.
pub record Agent (X : Type 0) : Type 0 where
  pub process : ℕ
  pub executor : X
  pub tracked : StringSet
  pub sent : List StatusUpdate

module _ {X : Type 0} (runtime : Executor X) where
  abbrev pub new_agent : ℕ → X → Agent X
  new_agent process executor = record {
    process = process;
    executor = executor;
    tracked = [];
    sent = [];
  }

  -- `track`: whether the ID was new.
  unfoldable pub track : Agent X → String → Agent X × Bool
  track a id =
      if Assoc.has id a.tracked
      then (a, false)
      else (record a { tracked = Assoc.put id tt a.tracked }, true)

  unfoldable pub untrack : Agent X → String → Agent X
  untrack a id = record a { tracked = Assoc.remove id a.tracked }

  -- `UpdateAssignmentStatus`, whose error is logged only.
  unfoldable pub send : Agent X → String → Phase → String → Agent X
  send a id phase message = record a {
    sent = a.sent ++ record { id = id; phase = phase; message = message } ∷ [];
  }

  -- The function that `reporter` returns, called.
  unfoldable pub reporter : Agent X → String → Phase → String → Agent X
  reporter a id phase message =
      let a' = send a id phase message in if is_terminal_phase phase then untrack a' id else a'

  unfoldable pub deliver : List Report → Agent X → Agent X
  deliver [] a = a
  deliver (r ∷ rest) a = deliver rest (reporter a r.reporter.assignment_id r.phase r.message)

  -- The active ones, by ID.
  unfoldable pub desired_of : List Assignment → Assoc Assignment → Assoc Assignment
  desired_of [] desired = desired
  desired_of (a ∷ rest) desired =
      desired_of rest (if is_active_phase a.phase then Assoc.put a.id a desired else desired)

  -- `Stop` of one ID, with what follows it.
  unfoldable pub stop_one : Agent X → String → Agent X
  stop_one a id =
      let (x, reports, error) = runtime.stop a.executor id in
      let a' = deliver reports (record a { executor = x }) in
      elim error [ some _ ↦ a' | none ↦ untrack a' id ]

  unfoldable pub stop_others : Assoc Assignment → List String → Agent X → Agent X
  stop_others desired [] a = a
  stop_others desired (id ∷ rest) a =
      stop_others desired rest (if Assoc.has id desired then a else stop_one a id)

  -- `Start` of an assignment that was not tracked, with what follows it.
  unfoldable pub start_one : Agent X → Assignment → Agent X
  start_one a assignment =
      let (x, reports, error) =
        runtime.start a.executor assignment
          (record { process = a.process; assignment_id = assignment.id }) in
      let a' = deliver reports (record a { executor = x }) in
      elim error [ none ↦ a' | some e ↦ send (untrack a' assignment.id) assignment.id failed e ]

  unfoldable pub start_desired : List (String × Assignment) → Agent X → Agent X
  start_desired [] a = a
  start_desired ((_, assignment) ∷ rest) a =
      let (a', new) = track a assignment.id in
      start_desired rest (if new then start_one a' assignment else a')

  -- The agent after the call, and whether it returned no error.
  unfoldable pub sync_assignments : Option (List Assignment) → Agent X → Agent X × Bool
  sync_assignments none a = (a, false)
  sync_assignments (some assignments) a =
      let desired = desired_of assignments [] in
      elim (runtime.list a.executor) [
        | none ↦ (a, false)
        | some existing ↦ (start_desired desired (stop_others desired existing a), true)
      ]
