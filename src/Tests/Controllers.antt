-- ===== src/Tests/Controllers.antt =====
-- The controller and its scheduler (internal/controller, internal/scheduler) on small data.
use mathlib.Core.Option
use k3_control_plane.Base.{
  ℕ, ◌+◌, ◌^◌, ◌<◌, filter_by, ◌≤◌, String, true, false, ◌≡◌, ◌⊎◌, refl, none, some, List, [], ◌∷◌,
  inl, arith, In, length, count_by, str_ltb,
}
use k3_control_plane.Base.Int.{pos, pos_part, ltb_ℤ, add64, sub64, wrap64}
use k3_control_plane.Base.Assoc
use k3_control_plane.Base.Sort.{sort_by, insert_sorted}
use k3_control_plane.Api.{Node, Assignment}
use k3_control_plane.Api.Phases.{is_active_phase}
use k3_control_plane.Api.Phases
use k3_control_plane.Store.{
  list_assignments_for_owner, list_assignments, list_nodes, assignment_less,
}
use k3_control_plane.Api.Clone.{clone_assignment, clone_node}
use k3_control_plane.Store.Keyed.{IsKeyed}
use k3_control_plane.Store.{node_less}
use k3_control_plane.Scheduler.{
  Scheduler, choose_node, since, live_nodes, add_node_ids, count_assignments, count_assignment,
  first_node, available_on, matches_placement, ports_clash, add_resources, add_ports,
}
use k3_control_plane.Scheduler.Choice.{Eligible, choose_node-some, choose_node-none}
use k3_control_plane.Scheduler.Capacity.{total_cpu, total_memory, choose_node_capacity}
use k3_control_plane.Controller.{
  Controller, live_set, mark_lost_assignments, mark_lost, live_node_set, known_nodes,
  add_live_nodes, with_grace,
}
use k3_control_plane.Controller.Ids.{next_assignment_id}
use k3_control_plane.Controller.Fresh.{next_assignment_id_total}
use k3_control_plane.Controller.Lost.{marked, get-mark_lost_assignments, mark_lost_assignments_live}
use k3_control_plane.Controller.Grace.{mark_lost_assignments_grace}
use k3_control_plane.Controller.Services.{reconcile_service}
use k3_control_plane.Controller.Services.Removal.{replicas_in}
use k3_control_plane.Controller.Services.Fill.{NoNode}
use k3_control_plane.Controller.Services.Converge.{reconcile_service_converges}
use k3_control_plane.Controller.Jobs.{reconcile_job}
use k3_control_plane.Controller.Jobs.Scanned.{is_success, is_failure, is_underway}
use k3_control_plane.Controller.Jobs.Attempts.{NewAttempt, NoNodeFor, reconcile_job_attempts}
use k3_control_plane.Tests.Data.{
  amounts, anywhere, node_at, web, batch, silent_replica, live_replica, failed_run, cluster,
  controller_of, one-IsKeyed, alternating, alternating-IsSpread,
}

abbrev silent : Controller
silent = controller_of (cluster (silent_replica ∷ []))

abbrev failing : Controller
failing = controller_of (cluster (failed_run ∷ []))

few_replicas : replicas_in (live_set 100 silent) web silent.store < 2 ^ 63
unfolding Assoc.values
few_replicas = ground arith

few_runs : length (list_assignments_for_owner failing.store Phases.job "batch") + 1 < 2 ^ 63
unfolding list_assignments_for_owner list_assignments Assoc.values filter_by sort_by insert_sorted
few_runs = ground arith

reconcile_service_converges_example :
    (c' : Controller) × (reconcile_service alternating 2 100 silent web ≡ some c')
    × IsKeyed c'.store
    × ((replicas_in (live_set 100 silent) web c'.store ≡ 1)
        ⊎ ((replicas_in (live_set 100 silent) web c'.store < 1) × NoNode 100 web c'))
reconcile_service_converges_example =
    reconcile_service_converges alternating 2 100 silent web (one-IsKeyed silent_replica) refl
      alternating-IsSpread refl few_replicas (omega arith)

reconcile_job_attempts_example :
    (c' : Controller) × (reconcile_job alternating 2 100 failing batch ≡ some c')
    × IsKeyed c'.store
    × (((c'.store.assignments ≡ failing.store.assignments)
          × ((0 < count_by is_success (list_assignments_for_owner failing.store Phases.job "batch"))
              ⊎ (0
                  < count_by
                      (is_underway (live_set 100 failing))
                      (list_assignments_for_owner failing.store Phases.job "batch"))
              ⊎ (ltb_ℤ (pos 1) (
                    pos (
                      count_by is_failure
                        (list_assignments_for_owner failing.store Phases.job "batch")))
                  ≡ true)
              ⊎ NoNodeFor 100 batch failing))
        ⊎ ((count_by is_success (list_assignments_for_owner failing.store Phases.job "batch") ≡ 0)
            × (count_by
                  (is_underway (live_set 100 failing))
                  (list_assignments_for_owner failing.store Phases.job "batch")
                ≡ 0)
            × (ltb_ℤ (pos 1) (
                  pos (
                    count_by is_failure
                      (list_assignments_for_owner failing.store Phases.job "batch")))
                ≡ false)
            × NewAttempt 100 batch
                (count_by is_failure (list_assignments_for_owner failing.store Phases.job "batch"))
                failing
                c'))
reconcile_job_attempts_example =
    reconcile_job_attempts alternating 2 100 failing batch (one-IsKeyed failed_run) refl
      alternating-IsSpread (omega arith) few_runs

get-mark_lost_assignments_example :
    Assoc.get "web-1-b" (mark_lost_assignments 100 silent).store.assignments
    ≡ Option.map (marked 100 (live_set 100 silent)) (Assoc.get "web-1-b" silent.store.assignments)
get-mark_lost_assignments_example =
    get-mark_lost_assignments 100 silent "web-1-b" (one-IsKeyed silent_replica)

-- The scheduler on the two nodes, with a replica on each.
abbrev both : List Node
both = node_at "a" 90 ∷ node_at "b" 10 ∷ []

abbrev running_work : List Assignment
running_work = live_replica ∷ silent_replica ∷ []

abbrev timeout : Scheduler
timeout = record { node_timeout = 30 }

-- Node "a" alone is live.
chosen : choose_node timeout 100 both running_work (amounts 200) anywhere [] ≡ some "a"
unfolding choose_node live_nodes since add_node_ids count_assignments count_assignment first_node
    available_on sort_by insert_sorted node_less str_ltb matches_placement ports_clash add_resources
    add_ports Assoc.get Assoc.put Assoc.has Assoc.get_or add64 sub64 wrap64 is_active_phase
chosen = refl

full : choose_node timeout 100 both running_work (amounts 950) anywhere [] ≡ none
unfolding choose_node live_nodes since add_node_ids count_assignments count_assignment first_node
    available_on sort_by insert_sorted node_less str_ltb matches_placement ports_clash add_resources
    add_ports Assoc.get Assoc.put Assoc.has Assoc.get_or add64 sub64 wrap64 is_active_phase
full = refl

choose_node-some_example :
    ((n : Node) × In n both
      × (n.id ≡ "a")
      × Eligible timeout 100 running_work (amounts 200) anywhere [] n)
    × ((m : Node)
        → In m both
        → Eligible timeout 100 running_work (amounts 200) anywhere [] m
        → str_ltb m.id "a" ≡ false)
choose_node-some_example =
    choose_node-some timeout 100 both running_work (amounts 200) anywhere [] chosen

choose_node-none_example :
    ¬ Eligible timeout 100 running_work (amounts 950) anywhere [] (node_at "a" 90)
choose_node-none_example =
    choose_node-none timeout 100 both running_work (amounts 950) anywhere [] (node_at "a" 90) full
      (inl refl)

room_for_cpu : total_cpu "a" running_work < 2 ^ 63
unfolding total_cpu is_active_phase
room_for_cpu = ground arith

room_for_memory : total_memory "a" running_work < 2 ^ 63
unfolding total_memory is_active_phase
room_for_memory = ground arith

choose_node_capacity_example :
    (n : Node) × In n both
    × (n.id ≡ "a")
    × (total_cpu "a" running_work + 200 ≤ pos_part n.capacity.cpu)
    × (total_memory "a" running_work + 200 ≤ pos_part n.capacity.memory)
choose_node_capacity_example =
    choose_node_capacity timeout 100 both running_work (amounts 200) anywhere [] chosen
      ((refl, refl), ((refl, refl), tt))
      (((refl, refl), omega arith, omega arith), (((refl, refl), omega arith, omega arith), tt))
      (refl, refl) room_for_cpu room_for_memory

kept_live :
    Assoc.get "web-1-a"
      (mark_lost_assignments 100 (controller_of (cluster (live_replica ∷ [])))).store.assignments
    ≡ some live_replica
unfolding mark_lost_assignments mark_lost live_set live_node_set known_nodes add_live_nodes
    with_grace since list_nodes list_assignments sort_by insert_sorted node_less assignment_less
    str_ltb Assoc.get Assoc.put Assoc.has Assoc.values is_active_phase clone_assignment clone_node
kept_live = refl

abbrev restarted : Controller
restarted = record silent { started_at = 90 }

mark_lost_assignments_live_example :
    Assoc.has "a" (live_set 100 (controller_of (cluster (live_replica ∷ [])))) ≡ true
unfolding is_active_phase
mark_lost_assignments_live_example =
    mark_lost_assignments_live 100 (controller_of (cluster (live_replica ∷ []))) "web-1-a"
      (one-IsKeyed live_replica) kept_live refl

early : since 100 90 ≤ 30
unfolding since
early = ground arith

mark_lost_assignments_grace_example :
    Assoc.get "web-1-b" (mark_lost_assignments 100 restarted).store.assignments
    ≡ some silent_replica
unfolding Assoc.get
mark_lost_assignments_grace_example =
    mark_lost_assignments_grace 100 restarted "web-1-b" (one-IsKeyed silent_replica) early refl refl

next_assignment_id_total_example :
    (id : String) × (draws' : ℕ) × (next_assignment_id alternating 2 silent.store "web" (pos 1) 0
      ≡ some (id, draws'))
    × (Assoc.get id silent.store.assignments ≡ none)
next_assignment_id_total_example =
    next_assignment_id_total alternating 2 silent.store "web" (pos 1) 0 alternating-IsSpread
      (omega arith)
