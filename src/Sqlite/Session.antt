-- ===== src/Sqlite/Session.antt =====
-- `SQLiteStore` (internal/store/sqlite.go) implements what `MemoryStore` says of the `Store` interface, call by
-- call and over any sequence of calls.
use k3_control_plane.Base.{◌≡◌, refl, ap, List, [], ◌∷◌, ◌++◌, All}
use k3_control_plane.Store.{MemoryStore}
use k3_control_plane.Sqlite.{Engine, Codecs, Outcome, returned, crashed}
use k3_control_plane.Sqlite.Represents.{IsSqlite, AreLossless, Represents}
use k3_control_plane.Sqlite.Refinement.{Refines, CallFails}
use k3_control_plane.Sqlite.Objects.{
  sql_upsert_node-Refines, sql_touch_node-Refines, sql_upsert_service-Refines,
  sql_update_service_status-Refines, sql_upsert_job-Refines, sql_update_job_status-Refines,
}
use k3_control_plane.Sqlite.Owners.{
  sql_delete_service-Refines, sql_delete_job-Refines, sql_has_assignment-Refines,
}
use k3_control_plane.Sqlite.Assignments.{
  sql_save_assignment-Refines, sql_delete_assignment-Refines, sql_update_assignment_status-Refines,
}
use k3_control_plane.Sqlite.Reads.{
  sql_list_nodes-Refines, sql_list_services-Refines, sql_list_jobs-Refines,
  sql_list_assignments-Refines, sql_list_node_assignments-Refines,
  sql_list_assignments_for_owner-Refines, sql_snapshot-Refines,
}
use k3_control_plane.Sqlite.Methods
use k3_control_plane.Sqlite.Methods.{
  Method, Answer, answered, memory_call, sql_call, and_answer, after_call, memory_session,
  sql_session, IsStorableCall,
}

module _ {Db : Type 0} (engine : Engine Db) (law : IsSqlite engine) (json : Codecs)
    (lossless : AreLossless json) where
  answered-Refines :
      {A : Type 0} (s s' : MemoryStore) (a : A) (f : A → Answer) (out : Outcome Db A)
      → Refines law json s s' a out
      → Refines law json s s' (f a) (answered f out)
  answered-Refines s s' a f (returned db b) h = (h.0, ap f h.1)
  answered-Refines s s' a f (crashed db) h = h

  -- Each method of the database store does what the method of the memory store does, reads
  -- included: it returns the same answer, in the same order, and a database that represents the
  -- memory store after the call; or it crashes because a call of the engine or an encoding
  -- failed, and the database still represents the memory store before the call. The conditions on
  -- engine, encoding and saved assignments are those of the sequences.
  pub sql_call-Refines :
      (db : Db) (s : MemoryStore) (m : Method)
      → IsStorableCall m
      → Represents json (law.view db) s
      → Refines law json s (memory_call s m).0 (memory_call s m).1 (sql_call engine json m db)
  unfolding memory_call sql_call
  sql_call-Refines db s (Methods.upsert_node node) k r =
      answered-Refines s _ tt _ _ (sql_upsert_node-Refines engine law json lossless db s r node)
  sql_call-Refines db s (Methods.touch_node id now) k r =
      answered-Refines s _ _ _ _ (sql_touch_node-Refines engine law json lossless db s r id now)
  sql_call-Refines db s Methods.list_nodes k r =
      answered-Refines s _ _ _ _ (sql_list_nodes-Refines engine law json db s r)
  sql_call-Refines db s (Methods.upsert_service service) k r =
      answered-Refines s _ tt _ _
        (sql_upsert_service-Refines engine law json lossless db s r service)
  sql_call-Refines db s (Methods.update_service_status name status) k r =
      answered-Refines s _ _ _ _
        (sql_update_service_status-Refines engine law json lossless db s r name status)
  sql_call-Refines db s Methods.list_services k r =
      answered-Refines s _ _ _ _ (sql_list_services-Refines engine law json db s r)
  sql_call-Refines db s (Methods.delete_service name) k r =
      answered-Refines s _ _ _ _ (sql_delete_service-Refines engine law json db s r name)
  sql_call-Refines db s (Methods.upsert_job job) k r =
      answered-Refines s _ tt _ _ (sql_upsert_job-Refines engine law json lossless db s r job)
  sql_call-Refines db s (Methods.update_job_status name status) k r =
      answered-Refines s _ _ _ _
        (sql_update_job_status-Refines engine law json lossless db s r name status)
  sql_call-Refines db s Methods.list_jobs k r =
      answered-Refines s _ _ _ _ (sql_list_jobs-Refines engine law json db s r)
  sql_call-Refines db s (Methods.delete_job name) k r =
      answered-Refines s _ _ _ _ (sql_delete_job-Refines engine law json db s r name)
  sql_call-Refines db s (Methods.save_assignment a) k r =
      answered-Refines s _ tt _ _ (sql_save_assignment-Refines engine law json lossless db s r a k)
  sql_call-Refines db s (Methods.delete_assignment id) k r =
      answered-Refines s _ _ _ _ (sql_delete_assignment-Refines engine law json lossless db s r id)
  sql_call-Refines db s (Methods.update_assignment_status id phase message now) k r =
      answered-Refines s _ _ _ _
        (sql_update_assignment_status-Refines engine law json lossless db s r id phase message now)
  sql_call-Refines db s Methods.list_assignments k r =
      answered-Refines s _ _ _ _ (sql_list_assignments-Refines engine law json db s r)
  sql_call-Refines db s (Methods.list_node_assignments node_id) k r =
      answered-Refines s _ _ _ _ (sql_list_node_assignments-Refines engine law json db s r node_id)
  sql_call-Refines db s (Methods.list_assignments_for_owner kind name) k r =
      answered-Refines s _ _ _ _
        (sql_list_assignments_for_owner-Refines engine law json db s r kind name k)
  sql_call-Refines db s (Methods.has_assignment id) k r =
      answered-Refines s _ _ _ _ (sql_has_assignment-Refines engine law json db s r id)
  sql_call-Refines db s Methods.snapshot k r =
      answered-Refines s _ _ _ _ (sql_snapshot-Refines engine law json db s r)

  -- A session that ends has answered each call as the memory store does; one that a crash cuts short has
  -- done the first calls of the sequence, whole, and no more.
  abbrev pub SessionRefines : MemoryStore → List Method → Outcome Db (List Answer) → Type 0
  SessionRefines s ms (returned db answers) =
      Represents json (law.view db) (memory_session s ms).0 × (answers ≡ (memory_session s ms).1)
  SessionRefines s ms (crashed db) =
      CallFails engine json
      × ((before after : List Method) × (ms ≡ before ++ after)
          × Represents json (law.view db) (memory_session s before).0)

  later_step :
      (s : MemoryStore) (m : Method) (ms : List Method) (answer : Answer)
      (out : Outcome Db (List Answer))
      → answer ≡ (memory_call s m).1
      → SessionRefines (memory_call s m).0 ms out
      → SessionRefines s (m ∷ ms) (and_answer answer out)
  unfolding memory_session
  later_step s m ms answer (returned db answers) e h = (h.0, λ i. e i ∷ h.1 i)
  later_step s m ms answer (crashed db) e (f, (before, after, split, r)) =
      (f, (m ∷ before, after, ap (λ rest. m ∷ rest) split, r))

  call_step :
      (s : MemoryStore) (m : Method) (ms : List Method) (out : Outcome Db Answer)
      (next : Db → Outcome Db (List Answer))
      → Refines law json s (memory_call s m).0 (memory_call s m).1 out
      → ((db : Db)
          → Represents json (law.view db) (memory_call s m).0
          → SessionRefines (memory_call s m).0 ms (next db))
      → SessionRefines s (m ∷ ms) (after_call out next)
  unfolding memory_session
  call_step s m ms (returned db answer) next h rest =
      later_step s m ms answer (next db) h.1 (rest db h.0)
  call_step s m ms (crashed db) next h rest = (h.1, ([], m ∷ ms, refl, h.0))

  -- A sequence of calls of the database store, from a database that represents a well-formed
  -- memory store, either ends, has answered each call as the memory store does and leaves a
  -- database that represents what the memory store ends with; or a crash cuts it short, because a
  -- call of the engine or an encoding failed, and leaves a database that represents what the
  -- memory store holds after the first calls of the sequence, each done whole. The engine does
  -- what its SQL says when it succeeds, what is encoded is decoded again, and the saved
  -- assignments are from 1678 to 2262 and of a kind that its text gives back.
  pub sql_session-Refines :
      (db : Db) (s : MemoryStore) (ms : List Method)
      → All IsStorableCall ms
      → Represents json (law.view db) s
      → SessionRefines s ms (sql_session engine json ms db)
  unfolding sql_session memory_session
  sql_session-Refines db s [] k r = (r, refl)
  sql_session-Refines db s (m ∷ ms) k r =
      call_step s m ms (sql_call engine json m db) (sql_session engine json ms)
        (sql_call-Refines db s m k.0 r)
        (λ db' r'. sql_session-Refines db' (memory_call s m).0 ms k.1 r')
