-- ===== src/Runtime.antt =====
-- internal/runtime/runtime.go and sim.go: the simulated container runtime.
--
-- The mutex makes each method one step. A report goes to the agent that asked for it, so a method that
-- reports returns the reports it makes, in order; a task remembers the reporter of the last `Start` for it,
-- here by the assignment's ID that it closes over and a number for the agent's process. `runJob` is a goroutine of its own: `finish` is its step after `JobDuration`, taken
-- only if the task was not stopped before.
pub mod Tasks
use k3_control_plane.Base.{
  ℕ, String, Bool, true, false, ◌&&◌, Option, none, some, List, [], ◌∷◌, map, leb, ltb, nat_eq,
  ◌||◌, ◌+◌, str_ltb, if◌then◌else◌,
}
use k3_control_plane.Base.Assoc
use k3_control_plane.Base.Assoc.{Assoc}
use k3_control_plane.Base.Sort.{sort_by}
use Prim.Native.Char.{Char, code}
use Prim.Native.String
use k3_control_plane.Api.{Assignment}
use k3_control_plane.Api.Phases.{
  Phase, running, succeeded, failed, stopped, Kind, job, kind_eq, is_terminal_phase,
}

pub record Reporter : Type 0 where
  pub process : ℕ
  pub assignment_id : String

-- `report(phase, message)` of a reporter.
pub record Report : Type 0 where
  pub reporter : Reporter
  pub phase : Phase
  pub message : String

pub record SimTask : Type 0 where
  pub phase : Phase
  pub message : String
  pub report : Reporter

-- `tasks` of the executor, by the assignment's ID.
pub record SimExecutor : Type 0 where
  pub tasks : Assoc SimTask

abbrev pub new_sim_executor : SimExecutor
new_sim_executor = record { tasks = [] }

unfoldable pub report_task : SimTask → Report
report_task t = record { reporter = t.report; phase = t.phase; message = t.message }

-- The task of an assignment seen for the first time.
unfoldable pub new_task : Reporter → SimTask
new_task report = record {
  phase = running;
  message = "simulated runtime started assignment";
  report = report;
}

-- `Start` up to the goroutine: the executor, the report, and whether `runJob` is started.
unfoldable pub start : SimExecutor → Assignment → Reporter → SimExecutor × Report × Bool
start s assignment report = elim (Assoc.get assignment.id s.tasks) [
  | some task ↦
      let task' = record task { report = report } in
      (record s { tasks = Assoc.put assignment.id task' s.tasks }, report_task task', false)
  | none ↦ (
    record s { tasks = Assoc.put assignment.id (new_task report) s.tasks },
    report_task (new_task report),
    kind_eq assignment.owner_kind job,
  )
]

-- `unicode.ToLower` of a character, where it is a letter of "fail": the dotted capital I (304) is one too.
unfoldable pub lower_code : Char → ℕ
lower_code x =
    if leb 65 (code x) && leb (code x) 90
    then code x + 32
    else if nat_eq (code x) 304
    then 105
    else code x

unfoldable pub starts_lowered : String → String → Bool
starts_lowered s String.[] = true
starts_lowered String.[] (String.◌∷◌ y t) = false
starts_lowered (String.◌∷◌ x s) (String.◌∷◌ y t) =
    nat_eq (lower_code x) (code y) && starts_lowered s t

-- `strings.Contains(strings.ToLower(s), t)`
unfoldable pub contains_lowered : String → String → Bool
contains_lowered String.[] t = starts_lowered "" t
contains_lowered (String.◌∷◌ x s) t = starts_lowered (String.◌∷◌ x s) t || contains_lowered s t

unfoldable pub should_fail : List String → Bool
should_fail [] = false
should_fail (part ∷ rest) =
    let later = should_fail rest in if contains_lowered part "fail" then true else later

-- How a job's task ends.
unfoldable pub finished : List String → SimTask → SimTask
finished command task =
    if should_fail command
    then record task {
      phase = failed;
      message = "simulated job failed because command contains 'fail'";
    }
    else record task { phase = succeeded; message = "simulated job completed" }

-- `runJob` once the time is over.
unfoldable pub finish : SimExecutor → Assignment → SimExecutor × Option Report
finish s assignment = elim (Assoc.get assignment.id s.tasks) [
  | none ↦ (s, none)
  | some task ↦
      let task' = finished assignment.command task in
      (record s { tasks = Assoc.put assignment.id task' s.tasks }, some (report_task task'))
]

unfoldable pub stop_report : SimTask → Option Report
stop_report task =
    if is_terminal_phase task.phase
    then none
    else some (record { reporter = task.report; phase = stopped; message = "stopped by agent" })

unfoldable pub stop : SimExecutor → String → SimExecutor × Option Report
stop s assignment_id = elim (Assoc.get assignment_id s.tasks) [
  | none ↦ (s, none)
  | some task ↦ (record s { tasks = Assoc.remove assignment_id s.tasks }, stop_report task)
]

unfoldable pub keys_of : Assoc SimTask → List String
keys_of [] = []
keys_of ((id, task) ∷ rest) = id ∷ keys_of rest

-- `List`
unfoldable pub list_tasks : SimExecutor → List String
list_tasks s = sort_by str_ltb (keys_of s.tasks)
