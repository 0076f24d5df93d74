-- ===== src/Sqlite/Objects.antt =====
-- The writes of `SQLiteStore` to nodes, services and jobs (internal/store/sqlite.go) do what those of
-- `MemoryStore` do.
use k3_control_plane.Base.{String, refl}
use k3_control_plane.Base.Assoc
use k3_control_plane.Base.Assoc.{Assoc}
use k3_control_plane.Api.{Time, Node, Service, ServiceStatus, Job, JobStatus}
use k3_control_plane.Api.Clone.{clone_node_lem, clone_service_lem, clone_job_lem}
use k3_control_plane.Store
use k3_control_plane.Store.{MemoryStore}
use k3_control_plane.Store.Keyed.{
  upsert_node-IsKeyed, touch_node-IsKeyed, upsert_service-IsKeyed, update_service_status-IsKeyed,
  upsert_job-IsKeyed, update_job_status-IsKeyed,
}
use k3_control_plane.Sqlite.Tables.{
  Tables, Statement, upsert_node, upsert_service, upsert_job, run, run_update, alter, data_in,
}
use k3_control_plane.Sqlite.Tables
use k3_control_plane.Sqlite.{
  Engine, Codecs, found, sql_upsert_node, sql_touch_node, sql_upsert_service,
  sql_update_service_status, sql_upsert_job, sql_update_job_status,
}
use k3_control_plane.Sqlite.Represents.{
  SameRows, IsSqlite, AreLossless, IsDecoded, Represents, Represents-same, Both-put,
}
use k3_control_plane.Sqlite.Cases.{exec_encoded_case, update_case}
use k3_control_plane.Sqlite.Refinement.{
  Refines, node_fails, service_fails, job_fails, none_of-Both, decoded_same, row_readable, fails,
}

module _ {Db : Type 0} (engine : Engine Db) (law : IsSqlite engine) (json : Codecs)
    (lossless : AreLossless json) (db : Db) (s : MemoryStore)
    (r : Represents json (law.view db) s) where
  pub sql_upsert_node-Refines :
      (n : Node) → Refines law json s (Store.upsert_node s n) tt (sql_upsert_node engine json n db)
  unfolding sql_upsert_node Store.upsert_node run
  sql_upsert_node-Refines n =
      exec_encoded_case engine law db (Refines law json s (Store.upsert_node s n) tt) json.node n
        (upsert_node n.id) lossless.node (fails engine json json.node node_fails r)
        (λ text db' decoded same. (
          Represents-same json (law.view db') _ (Store.upsert_node s n) same (record {
            nodes = rw clone_node_lem (
                Both-put (IsDecoded json.node) n.id text n (law.view db).node_rows s.nodes decoded
                  r.nodes);
            services = r.services;
            jobs = r.jobs;
            assignments = r.assignments;
            keyed = upsert_node-IsKeyed s n r.keyed;
          }),
          refl,
        ))

  pub sql_touch_node-Refines :
      (id : String) (now : Time)
      → Refines law json s
          (Store.touch_node s id now).0
          (Store.touch_node s id now).1
          (sql_touch_node engine json id now db)
  unfolding sql_touch_node Store.touch_node data_in run run_update alter found
  sql_touch_node-Refines id now =
      update_case engine law db
        (λ out.
          Refines law json s (Store.touch_node s id now).0 (Store.touch_node s id now).1
            (found engine out))
        json.node Tables.nodes id (λ node. record node { last_heartbeat = now }) lossless.node
        (λ text. row_readable json.node _ _ text (r.nodes id))
        (fails engine json json.node node_fails r)
        (λ absent.
          rw (none_of-Both (IsDecoded json.node) _ _ (r.nodes id) absent, Store.touch_node)
            (r, refl))
        (λ text text' item db' present decoded decoded' same.
          let stored = decoded_same json.node text item _ _ (r.nodes id) present decoded in
          let keyed = touch_node-IsKeyed s id now r.keyed in
          let altered : SameRows (law.view db')
              (record (law.view db) { node_rows = Assoc.put id text' (law.view db).node_rows }) =
            rw (present, alter) at same in
          rw (stored, Store.touch_node)
            (
              Represents-same json (law.view db') _ _ altered (record {
                nodes =
                    Both-put (IsDecoded json.node) id text' _ (law.view db).node_rows s.nodes
                      decoded' r.nodes;
                services = r.services;
                jobs = r.jobs;
                assignments = r.assignments;
                keyed = rw (stored, Store.touch_node) at keyed;
              }),
              refl,
            ))

  pub sql_upsert_service-Refines :
      (n : Service)
      → Refines law json s (Store.upsert_service s n) tt (sql_upsert_service engine json n db)
  unfolding sql_upsert_service Store.upsert_service run
  sql_upsert_service-Refines n =
      exec_encoded_case engine law db (Refines law json s (Store.upsert_service s n) tt)
        json.service n (upsert_service n.name) lossless.service
        (fails engine json json.service service_fails r)
        (λ text db' decoded same. (
          Represents-same json (law.view db') _ (Store.upsert_service s n) same (record {
            services = rw clone_service_lem (
                Both-put (IsDecoded json.service) n.name text n (law.view db).service_rows
                  s.services decoded r.services);
            nodes = r.nodes;
            jobs = r.jobs;
            assignments = r.assignments;
            keyed = upsert_service-IsKeyed s n r.keyed;
          }),
          refl,
        ))

  pub sql_update_service_status-Refines :
      (name : String) (status : ServiceStatus)
      → Refines law json s
          (Store.update_service_status s name status).0
          (Store.update_service_status s name status).1
          (sql_update_service_status engine json name status db)
  unfolding sql_update_service_status Store.update_service_status data_in run run_update alter found
  sql_update_service_status-Refines name status =
      update_case engine law db
        (λ out.
          Refines law json s (Store.update_service_status s name status).0
            (Store.update_service_status s name status).1 (found engine out))
        json.service Tables.services name (λ service. record service { status = status })
        lossless.service (λ text. row_readable json.service _ _ text (r.services name))
        (fails engine json json.service service_fails r)
        (λ absent.
          rw
            (
              none_of-Both (IsDecoded json.service) _ _ (r.services name) absent,
              Store.update_service_status,
            )
            (r, refl))
        (λ text text' item db' present decoded decoded' same.
          let stored = decoded_same json.service text item _ _ (r.services name) present decoded in
          let keyed = update_service_status-IsKeyed s name status r.keyed in
          let altered : SameRows (law.view db') (record (law.view db) {
            service_rows = Assoc.put name text' (law.view db).service_rows;
          }) =
            rw (present, alter) at same in
          rw (stored, Store.update_service_status)
            (
              Represents-same json (law.view db') _ _ altered (record {
                services =
                    Both-put (IsDecoded json.service) name text' _ (law.view db).service_rows
                      s.services decoded' r.services;
                nodes = r.nodes;
                jobs = r.jobs;
                assignments = r.assignments;
                keyed = rw (stored, Store.update_service_status) at keyed;
              }),
              refl,
            ))

  pub sql_upsert_job-Refines :
      (n : Job) → Refines law json s (Store.upsert_job s n) tt (sql_upsert_job engine json n db)
  unfolding sql_upsert_job Store.upsert_job run
  sql_upsert_job-Refines n =
      exec_encoded_case engine law db (Refines law json s (Store.upsert_job s n) tt) json.job n
        (upsert_job n.name) lossless.job (fails engine json json.job job_fails r)
        (λ text db' decoded same. (
          Represents-same json (law.view db') _ (Store.upsert_job s n) same (record {
            jobs = rw clone_job_lem (
                Both-put (IsDecoded json.job) n.name text n (law.view db).job_rows s.jobs decoded
                  r.jobs);
            services = r.services;
            nodes = r.nodes;
            assignments = r.assignments;
            keyed = upsert_job-IsKeyed s n r.keyed;
          }),
          refl,
        ))

  pub sql_update_job_status-Refines :
      (name : String) (status : JobStatus)
      → Refines law json s
          (Store.update_job_status s name status).0
          (Store.update_job_status s name status).1
          (sql_update_job_status engine json name status db)
  unfolding sql_update_job_status Store.update_job_status data_in run run_update alter found
  sql_update_job_status-Refines name status =
      update_case engine law db
        (λ out.
          Refines law json s (Store.update_job_status s name status).0
            (Store.update_job_status s name status).1 (found engine out))
        json.job Tables.jobs name (λ job. record job { status = status }) lossless.job
        (λ text. row_readable json.job _ _ text (r.jobs name))
        (fails engine json json.job job_fails r)
        (λ absent.
          rw (none_of-Both (IsDecoded json.job) _ _ (r.jobs name) absent, Store.update_job_status)
            (r, refl))
        (λ text text' item db' present decoded decoded' same.
          let stored = decoded_same json.job text item _ _ (r.jobs name) present decoded in
          let keyed = update_job_status-IsKeyed s name status r.keyed in
          let altered : SameRows (law.view db')
              (record (law.view db) { job_rows = Assoc.put name text' (law.view db).job_rows }) =
            rw (present, alter) at same in
          rw (stored, Store.update_job_status)
            (
              Represents-same json (law.view db') _ _ altered (record {
                jobs =
                    Both-put (IsDecoded json.job) name text' _ (law.view db).job_rows s.jobs
                      decoded' r.jobs;
                services = r.services;
                nodes = r.nodes;
                assignments = r.assignments;
                keyed = rw (stored, Store.update_job_status) at keyed;
              }),
              refl,
            ))
