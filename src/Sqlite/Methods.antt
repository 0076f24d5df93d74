-- ===== src/Sqlite/Methods.antt =====
-- The `Store` interface (internal/store/store.go), one constructor for each method, and how the two stores
-- answer its calls.
use k3_control_plane.Base.{String, Bool, ◌≡◌, Option, List, [], ◌∷◌}
use k3_control_plane.Api.{
  Time, Node, Service, ServiceStatus, Job, JobStatus, Assignment, StateSnapshot,
}
use k3_control_plane.Api.Phases.{Phase, Kind}
use k3_control_plane.Store
use k3_control_plane.Store.{MemoryStore}
use k3_control_plane.Sqlite.{
  Engine, Codecs, Outcome, returned, crashed, sql_upsert_node, sql_touch_node, sql_list_nodes,
  sql_upsert_service, sql_update_service_status, sql_list_services, sql_delete_service,
  sql_upsert_job, sql_update_job_status, sql_list_jobs, sql_delete_job, sql_save_assignment,
  sql_delete_assignment, sql_update_assignment_status, sql_list_assignments,
  sql_list_node_assignments, sql_list_assignments_for_owner, sql_has_assignment, sql_snapshot,
}
use k3_control_plane.Sqlite.Represents.{IsStorable, kind_of}
use k3_control_plane.Sqlite.{kind_text}

pub data Method : Type 0 where
  upsert_node : Node → Method
  touch_node : String → Time → Method
  list_nodes : Method
  upsert_service : Service → Method
  update_service_status : String → ServiceStatus → Method
  list_services : Method
  delete_service : String → Method
  upsert_job : Job → Method
  update_job_status : String → JobStatus → Method
  list_jobs : Method
  delete_job : String → Method
  save_assignment : Assignment → Method
  delete_assignment : String → Method
  update_assignment_status : String → Phase → String → Time → Method
  list_assignments : Method
  list_node_assignments : String → Method
  list_assignments_for_owner : Kind → String → Method
  has_assignment : String → Method
  snapshot : Method

pub data Answer : Type 0 where
  done : Answer
  flag : Bool → Answer
  updated : Option Assignment → Answer
  nodes : List Node → Answer
  services : List Service → Answer
  jobs : List Job → Answer
  assignments : List Assignment → Answer
  state : StateSnapshot → Answer

abbrev pub answer_with : {A : Type 0} → (A → Answer) → MemoryStore × A → MemoryStore × Answer
answer_with f p = (p.0, f p.1)

-- `MemoryStore`
unfoldable pub memory_call : MemoryStore → Method → MemoryStore × Answer
memory_call s (upsert_node node) = (Store.upsert_node s node, done)
memory_call s (touch_node id now) = answer_with flag (Store.touch_node s id now)
memory_call s list_nodes = (s, nodes (Store.list_nodes s))
memory_call s (upsert_service service) = (Store.upsert_service s service, done)
memory_call s (update_service_status name status) =
    answer_with flag (Store.update_service_status s name status)
memory_call s list_services = (s, services (Store.list_services s))
memory_call s (delete_service name) = answer_with flag (Store.delete_service s name)
memory_call s (upsert_job job) = (Store.upsert_job s job, done)
memory_call s (update_job_status name status) =
    answer_with flag (Store.update_job_status s name status)
memory_call s list_jobs = (s, jobs (Store.list_jobs s))
memory_call s (delete_job name) = answer_with flag (Store.delete_job s name)
memory_call s (save_assignment assignment) = (Store.save_assignment s assignment, done)
memory_call s (delete_assignment id) = answer_with flag (Store.delete_assignment s id)
memory_call s (update_assignment_status id phase message now) =
    answer_with updated (Store.update_assignment_status s id phase message now)
memory_call s list_assignments = (s, assignments (Store.list_assignments s))
memory_call s (list_node_assignments node_id) =
    (s, assignments (Store.list_node_assignments s node_id))
memory_call s (list_assignments_for_owner kind name) =
    (s, assignments (Store.list_assignments_for_owner s kind name))
memory_call s (has_assignment id) = (s, flag (Store.has_assignment s id))
memory_call s snapshot = (s, state (Store.snapshot s))

abbrev pub answered : {Db A : Type 0} → (A → Answer) → Outcome Db A → Outcome Db Answer
answered f (returned db a) = returned db (f a)
answered f (crashed db) = crashed db

abbrev pub and_answer : {Db : Type 0} → Answer → Outcome Db (List Answer) → Outcome Db (List Answer)
and_answer answer (returned db answers) = returned db (answer ∷ answers)
and_answer answer (crashed db) = crashed db

abbrev pub after_call :
    {Db : Type 0} → Outcome Db Answer → (Db → Outcome Db (List Answer)) → Outcome Db (List Answer)
after_call (returned db answer) next = and_answer answer (next db)
after_call (crashed db) next = crashed db

module _ {Db : Type 0} (engine : Engine Db) (json : Codecs) where
  -- `SQLiteStore`
  unfoldable pub sql_call : Method → Db → Outcome Db Answer
  sql_call (upsert_node node) db = answered (λ _. done) (sql_upsert_node engine json node db)
  sql_call (touch_node id now) db = answered flag (sql_touch_node engine json id now db)
  sql_call list_nodes db = answered nodes (sql_list_nodes engine json db)
  sql_call (upsert_service service) db =
      answered (λ _. done) (sql_upsert_service engine json service db)
  sql_call (update_service_status name status) db =
      answered flag (sql_update_service_status engine json name status db)
  sql_call list_services db = answered services (sql_list_services engine json db)
  sql_call (delete_service name) db = answered flag (sql_delete_service engine json name db)
  sql_call (upsert_job job) db = answered (λ _. done) (sql_upsert_job engine json job db)
  sql_call (update_job_status name status) db =
      answered flag (sql_update_job_status engine json name status db)
  sql_call list_jobs db = answered jobs (sql_list_jobs engine json db)
  sql_call (delete_job name) db = answered flag (sql_delete_job engine json name db)
  sql_call (save_assignment assignment) db =
      answered (λ _. done) (sql_save_assignment engine json assignment db)
  sql_call (delete_assignment id) db = answered flag (sql_delete_assignment engine json id db)
  sql_call (update_assignment_status id phase message now) db =
      answered updated (sql_update_assignment_status engine json id phase message now db)
  sql_call list_assignments db = answered assignments (sql_list_assignments engine json db)
  sql_call (list_node_assignments node_id) db =
      answered assignments (sql_list_node_assignments engine json node_id db)
  sql_call (list_assignments_for_owner kind name) db =
      answered assignments (sql_list_assignments_for_owner engine json kind name db)
  sql_call (has_assignment id) db = answered flag (sql_has_assignment engine json id db)
  sql_call snapshot db = answered state (sql_snapshot engine json db)

  -- Calls one after another, up to a crash.
  unfoldable pub sql_session : List Method → Db → Outcome Db (List Answer)
  sql_session [] db = returned db []
  sql_session (m ∷ ms) db = after_call (sql_call m db) (sql_session ms)

unfoldable pub memory_session : MemoryStore → List Method → MemoryStore × List Answer
memory_session s [] = (s, [])
memory_session s (m ∷ ms) =
    let (s', answer) = memory_call s m in
    let (s'', answers) = memory_session s' ms in (s'', answer ∷ answers)

-- An assignment that is saved has a creation time and an owner that the columns hold; so has the owner that
-- assignments are listed for.
abbrev pub IsStorableCall : Method → Type 0
IsStorableCall (save_assignment a) = IsStorable a
IsStorableCall (list_assignments_for_owner kind name) = kind_of (kind_text kind) ≡ kind
IsStorableCall _ = Unit
