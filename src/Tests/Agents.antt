-- ===== src/Tests/Agents.antt =====
-- An agent with the simulated runtime (internal/agent, internal/runtime/sim.go).
use k3_control_plane.Base.{false, ◌≡◌, [], ◌∷◌}
use k3_control_plane.Base.Assoc
use k3_control_plane.Api.{Assignment}
use k3_control_plane.Api.Phases.{running}
use k3_control_plane.Runtime.{Reporter, SimExecutor, new_sim_executor, start}
use k3_control_plane.Runtime.Tasks.{start_again}
use k3_control_plane.Agent.{Agent, new_agent}
use k3_control_plane.Agent.Simulated.{sim_executor}
use k3_control_plane.Tests.Data.{live_replica, failed_run}

abbrev reporter_of : Assignment → Reporter
reporter_of a = record { process = 1; assignment_id = a.id }

start_again_example :
    start
      (start new_sim_executor live_replica (reporter_of live_replica)).0
      live_replica
      (reporter_of live_replica)
    ≡ (
      (start new_sim_executor live_replica (reporter_of live_replica)).0,
      (start new_sim_executor live_replica (reporter_of live_replica)).1,
      false,
    )
start_again_example = start_again new_sim_executor live_replica (reporter_of live_replica)

abbrev one_task : SimExecutor
one_task = record {
  tasks =
      ("batch-1-x", record { phase = running; message = ""; report = reporter_of failed_run }) ∷ [];
}

-- A new agent process on a node whose runtime holds a task from before.
abbrev agent : Agent SimExecutor
agent = new_agent sim_executor 2 one_task
