-- ===== src/Agent/Simulated.antt =====
-- The simulated runtime (internal/runtime/sim.go) is an `Executor` that keeps the promises of one.
use k3_control_plane.Base.{Option, none, some, List, [], ◌∷◌, refl}
use k3_control_plane.Base.Assoc
use k3_control_plane.Runtime.{SimExecutor, Report, start, stop, list_tasks}
use k3_control_plane.Runtime.Tasks.{In-list_tasks, has-start, has-stop}
use k3_control_plane.Agent.{Executor}
use k3_control_plane.Agent.Wanted.{IsReliable}

abbrev reports_of : Option Report → List Report
reports_of none = []
reports_of (some r) = r ∷ []

abbrev pub sim_executor : Executor SimExecutor
sim_executor = record {
  start = λ s a report. let (s', r, runs) = start s a report in (s', r ∷ [], none);
  stop = λ s id. let (s', r) = stop s id in (s', reports_of r, none);
  list = λ s. some (list_tasks s);
}

-- The simulated runtime keeps the promises of a runtime: its calls do not fail, it lists exactly
-- the tasks it holds, a started task is held, and a stopped one is not.
pub sim_executor-IsReliable : IsReliable sim_executor
sim_executor-IsReliable = record {
  holds = λ s id. Assoc.has id s.tasks;
  listed = λ s. (list_tasks s, refl, In-list_tasks s);
  stop_succeeds = λ s id. refl;
  holds-stop = has-stop;
  start_succeeds = λ s a report. refl;
  holds-start = has-start;
}
