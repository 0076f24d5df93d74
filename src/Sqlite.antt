-- ===== src/Sqlite.antt =====
-- internal/store/sqlite.go: `SQLiteStore`, the store that the controller runs on.
--
-- The engine and the JSON encoding are not code of this repository: they are the records `Engine` and
-- `Codecs`. A method that meets an error ends the process (`failOn`), so a method's outcome is the
-- database and the result that it returns, or the database that the crash leaves behind. A transaction works
-- on a copy of the database, which `commit` makes the database; until then a crash leaves the old one.
-- There is one connection, so methods do not interleave.
pub mod Tables
pub mod Represents
pub mod Cases
pub mod Refinement
pub mod Objects
pub mod Assignments
pub mod Owners
pub mod Aligned
pub mod Listing
pub mod Order
pub mod Reads
pub mod Methods
pub mod Session
use k3_control_plane.Base.{
  ℕ, String, Bool, true, false, ◌==◌, Option, none, some, List, [], ◌∷◌, nat_eq, ◌*◌, ◌^◌,
  if◌then◌else◌,
}
use k3_control_plane.Base.Int.{ℤ, sub_ℕ, wrap64}
use k3_control_plane.Api.{
  Time, Node, Service, ServiceStatus, Job, JobStatus, Assignment, StateSnapshot,
}
use k3_control_plane.Api.Phases.{Phase, Kind}
use k3_control_plane.Api.Phases
use k3_control_plane.Store.{apply_status}
use k3_control_plane.Sqlite.Tables.{
  Table, AssignmentRow, Statement, upsert_node, upsert_service, upsert_job, upsert_assignment,
  update_data, delete_key, delete_owned, Query, data_of, all_nodes, all_services, all_jobs,
  all_assignments, node_assignments, owner_assignments, assignment_exists,
}
use k3_control_plane.Sqlite.Tables

-- The engine: each call may fail. `exec` gives the database after the statement and the rows affected,
-- `query` the first column of the rows.
pub record Engine (Db : Type 0) : Type 0 where
  pub begin : Db → Bool
  pub exec : Db → Statement → Option (Db × ℕ)
  pub query : Db → Query → Option (List String)
  pub commit : Db → Option Db

-- `json.Marshal` and `json.Unmarshal` at one type; either may fail.
pub record Codec (A : Type 0) : Type 0 where
  pub encode : A → Option String
  pub decode : String → Option A

pub record Codecs : Type 0 where
  pub node : Codec Node
  pub service : Codec Service
  pub job : Codec Job
  pub assignment : Codec Assignment

pub data Outcome (Db A : Type 0) : Type 0 where
  returned : Db → A → Outcome Db A
  crashed : Db → Outcome Db A

-- `string(kind)`
unfoldable pub kind_text : Kind → String
kind_text Phases.service = "service"
kind_text Phases.job = "job"
kind_text (Phases.other text) = text

-- `t.UnixNano()`
unfoldable pub unix_nano : Time → ℤ
unix_nano t = wrap64 (sub_ℕ t (62135596800 * 10 ^ 9))

-- The columns of `INSERT INTO assignments`.
unfoldable pub assignment_row : Assignment → String → AssignmentRow
assignment_row a text = record {
  node_id = a.node_id;
  owner_kind = kind_text a.owner_kind;
  owner_name = a.owner_name;
  created_at = unix_nano a.created_at;
  data_column = text;
}

-- `failOn` on the result of a call: an error leaves the database as it was committed last.
unfoldable pub or_crash : {Db A B : Type 0} → Db → Option A → (A → Outcome Db B) → Outcome Db B
or_crash db none next = crashed db
or_crash db (some a) next = next a

-- `list`, from the rows on.
unfoldable pub decode_all : {A : Type 0} → Codec A → List String → Option (List A)
decode_all codec [] = some []
decode_all codec (text ∷ rest) =
    let later = decode_all codec rest in
    elim (codec.decode text) [
      | none ↦ none
      | some a ↦ elim later [ none ↦ none | some as' ↦ some (a ∷ as') ]
    ]

module _ {Db : Type 0} (engine : Engine Db) where
  -- `s.exec`: a statement outside a transaction is one of its own.
  unfoldable pub exec : Db → Statement → Outcome Db (Unit {0})
  exec db statement = or_crash db (engine.exec db statement) (λ out. returned out.0 tt)

  -- An upsert, whose object is encoded first.
  unfoldable pub exec_encoded : Db → Option String → (String → Statement) → Outcome Db (Unit {0})
  exec_encoded db text statement = or_crash db text (λ data_text. exec db (statement data_text))

  -- `list`, on the database or in a transaction on it.
  unfoldable pub list :
      {A B : Type 0} → Codec A → Db → Query → (List A → Outcome Db B) → Outcome Db B
  list codec db query next =
      or_crash db (engine.query db query) (λ rows. or_crash db (decode_all codec rows) next)

  unfoldable pub list_all : {A : Type 0} → Codec A → Query → Db → Outcome Db (List A)
  list_all codec query db = list codec db query (returned db)

  unfoldable pub begin : {B : Type 0} → Db → Outcome Db B → Outcome Db B
  begin db next = if engine.begin db then next else crashed db

  -- `update` with the row found: the rest of the transaction.
  unfoldable pub update_row :
      {A : Type 0} → Codec A → Table → String → (A → A) → Db → String → Outcome Db (Option A)
  update_row codec table key mutate db text = or_crash db (codec.decode text) λ item.
      or_crash db (codec.encode (mutate item)) λ text'.
        or_crash db (engine.exec db (update_data table key text'))
          λ out. or_crash db (engine.commit out.0) λ db'. returned db' (some (mutate item))

  unfoldable pub update_rows :
      {A : Type 0} → Codec A → Table → String → (A → A) → Db → List String → Outcome Db (Option A)
  update_rows codec table key mutate db [] = returned db none
  update_rows codec table key mutate db (text ∷ _) = update_row codec table key mutate db text

  -- `update`: the item as it was written, or `none` where there is no row.
  unfoldable pub update :
      {A : Type 0} → Codec A → Table → String → (A → A) → Db → Outcome Db (Option A)
  update codec table key mutate db =
      begin db
        (or_crash db (engine.query db (data_of table key)) (update_rows codec table key mutate db))

  -- Whether the row existed.
  unfoldable pub found : {A : Type 0} → Outcome Db (Option A) → Outcome Db Bool
  found (returned db none) = returned db false
  found (returned db (some _)) = returned db true
  found (crashed db) = crashed db

  unfoldable pub delete_owner : Table → Kind → String → Db → Outcome Db Bool
  delete_owner table kind name db = begin db (
      or_crash db (engine.exec db (delete_key table name)) λ out.
        if nat_eq out.1 0
        then returned db false
        else or_crash db (engine.exec out.0 (delete_owned (kind_text kind) name))
            λ out'. or_crash db (engine.commit out'.0) λ db'. returned db' true)

  module _ (json : Codecs) where
    -- Nodes

    unfoldable pub sql_upsert_node : Node → Db → Outcome Db (Unit {0})
    sql_upsert_node node db = exec_encoded db (json.node.encode node) (upsert_node node.id)

    unfoldable pub sql_touch_node : String → Time → Db → Outcome Db Bool
    sql_touch_node id now db =
        found (update json.node Tables.nodes id (λ node. record node { last_heartbeat = now }) db)

    unfoldable pub sql_list_nodes : Db → Outcome Db (List Node)
    sql_list_nodes db = list_all json.node all_nodes db

    -- Services

    unfoldable pub sql_upsert_service : Service → Db → Outcome Db (Unit {0})
    sql_upsert_service service db =
        exec_encoded db (json.service.encode service) (upsert_service service.name)

    unfoldable pub sql_update_service_status : String → ServiceStatus → Db → Outcome Db Bool
    sql_update_service_status name status db = found (
        update json.service Tables.services name (λ service. record service { status = status }) db)

    unfoldable pub sql_list_services : Db → Outcome Db (List Service)
    sql_list_services db = list_all json.service all_services db

    unfoldable pub sql_delete_service : String → Db → Outcome Db Bool
    sql_delete_service name db = delete_owner Tables.services Phases.service name db

    -- Jobs

    unfoldable pub sql_upsert_job : Job → Db → Outcome Db (Unit {0})
    sql_upsert_job job db = exec_encoded db (json.job.encode job) (upsert_job job.name)

    unfoldable pub sql_update_job_status : String → JobStatus → Db → Outcome Db Bool
    sql_update_job_status name status db =
        found (update json.job Tables.jobs name (λ job. record job { status = status }) db)

    unfoldable pub sql_list_jobs : Db → Outcome Db (List Job)
    sql_list_jobs db = list_all json.job all_jobs db

    unfoldable pub sql_delete_job : String → Db → Outcome Db Bool
    sql_delete_job name db = delete_owner Tables.jobs Phases.job name db

    -- Assignments

    unfoldable pub sql_save_assignment : Assignment → Db → Outcome Db (Unit {0})
    sql_save_assignment a db =
        exec_encoded db (json.assignment.encode a)
          (λ text. upsert_assignment a.id (assignment_row a text))

    unfoldable pub sql_delete_assignment : String → Db → Outcome Db Bool
    sql_delete_assignment id db =
        or_crash db (engine.exec db (delete_key Tables.assignments id))
          (λ out. returned out.0 (if nat_eq out.1 0 then false else true))

    unfoldable pub sql_update_assignment_status :
        String → Phase → String → Time → Db → Outcome Db (Option Assignment)
    sql_update_assignment_status id phase message now db =
        update json.assignment Tables.assignments id
          (λ assignment. (apply_status assignment phase message now).0) db

    unfoldable pub sql_list_assignments : Db → Outcome Db (List Assignment)
    sql_list_assignments db = list_all json.assignment all_assignments db

    unfoldable pub sql_list_node_assignments : String → Db → Outcome Db (List Assignment)
    sql_list_node_assignments node_id db = list_all json.assignment (node_assignments node_id) db

    unfoldable pub sql_list_assignments_for_owner :
        Kind → String → Db → Outcome Db (List Assignment)
    sql_list_assignments_for_owner kind name db =
        list_all json.assignment (owner_assignments (kind_text kind) name) db

    unfoldable pub sql_has_assignment : String → Db → Outcome Db Bool
    sql_has_assignment id db =
        or_crash db (engine.query db (assignment_exists id))
          λ rows. elim rows [ [] ↦ returned db false | _ ∷ _ ↦ returned db true ]

    -- The transaction is committed, which changes nothing.
    unfoldable pub sql_snapshot : Db → Outcome Db StateSnapshot
    sql_snapshot db = begin db (
        list json.node db all_nodes λ nodes. list json.service db all_services λ services.
          list json.job db all_jobs λ jobs. list json.assignment db all_assignments λ assignments.
            or_crash db (engine.commit db) λ db'. returned db' (record {
              nodes = nodes;
              services = services;
              jobs = jobs;
              assignments = assignments;
            }))
