-- ===== src/Tests/Databases.antt =====
-- A database that is the tables themselves, and a session with a store on it.
use mathlib.Core.Option.{some-injective}
use k3_control_plane.Base.{
  ℕ, String, Bool, true, ◌≡◌, refl, sym, ap, subst, none, some, List, [], ◌∷◌, inl, inr, arith,
  Bool-cases, Option-cases, ◌==◌, eq_iff,
}
use k3_control_plane.Base.Assoc
use k3_control_plane.Base.Assoc.{Assoc, get-put, get-remove}
use k3_control_plane.Api.{Assignment}
use k3_control_plane.Api.Phases.{running}
use k3_control_plane.Api.Phases
use k3_control_plane.Store.{new_memory_store}
use k3_control_plane.Store.Keyed.{new-IsKeyed}
use k3_control_plane.Sqlite.{Engine}
use k3_control_plane.Sqlite.Tables.{
  Tables, AssignmentRow, Statement, upsert_node, upsert_service, upsert_job, upsert_assignment,
  update_data, delete_key, delete_owned, run, run_update, run_delete, alter, drop_key, keep_rows,
  select,
}
use k3_control_plane.Sqlite.Tables
use k3_control_plane.Sqlite.Represents.{HasKeysOnce, HasPrimaryKeys, IsSqlite, Represents, epoch}
use k3_control_plane.Sqlite.{kind_text}
use k3_control_plane.Sqlite.Represents.{SameRows, IsStorable}
use k3_control_plane.Sqlite.Refinement.{Refines}
use k3_control_plane.Sqlite.Methods
use k3_control_plane.Sqlite.Methods.{Method, memory_call, sql_call, memory_session, sql_session}
use k3_control_plane.Sqlite.Session.{SessionRefines, sql_call-Refines, sql_session-Refines}
use k3_control_plane.Tests.Data.{work, web}
use k3_control_plane.Tests.Formats.{formats, formats-AreLossless}

module _ {V : Type 0} where
  HasKeysOnce-put :
      (k : String) (v : V) (m : Assoc V) → HasKeysOnce m → HasKeysOnce (Assoc.put k v m)
  unfolding Assoc.put Assoc.get
  HasKeysOnce-put k v [] h = (refl, tt)
  HasKeysOnce-put k v ((j, w) ∷ m) h = elim (Bool-cases (j == k)) [
    | inl same ↦ rw same (rw ((eq_iff j k).0 same) at h.0, h.1)
    | inr other ↦
        rw other
          (rw get-put (ground (arith, eq_iff j k, eq_iff k j, h.0)), HasKeysOnce-put k v m h.1)
  ]

  HasKeysOnce-remove : (k : String) (m : Assoc V) → HasKeysOnce m → HasKeysOnce (Assoc.remove k m)
  unfolding Assoc.remove
  HasKeysOnce-remove k [] h = tt
  HasKeysOnce-remove k ((j, w) ∷ m) h = elim (Bool-cases (j == k)) [
    | inl same ↦ rw same (HasKeysOnce-remove k m h.1)
    | inr other ↦ rw other (ground (arith, get-remove k j m, h.0), HasKeysOnce-remove k m h.1)
  ]

  HasKeysOnce-alter :
      (f : V → V) (k : String) (m : Assoc V) → HasKeysOnce m → HasKeysOnce (alter f k m).0
  unfolding alter
  HasKeysOnce-alter f k m h = elim (Option-cases (Assoc.get k m)) [
    | inl e ↦ rw (e, alter) h
    | inr (v, e) ↦ rw (e, alter) (HasKeysOnce-put k (f v) m h)
  ]

  HasKeysOnce-drop : (k : String) (m : Assoc V) → HasKeysOnce m → HasKeysOnce (drop_key k m).0
  unfolding drop_key
  HasKeysOnce-drop k m h = elim (Option-cases (Assoc.get k m)) [
    | inl e ↦ rw (e, drop_key) h
    | inr (v, e) ↦ rw (e, drop_key) (HasKeysOnce-remove k m h)
  ]

absent_stays :
    (p : AssignmentRow → Bool) (k : String) (m : Assoc AssignmentRow)
    → Assoc.get k m ≡ none
    → Assoc.get k (keep_rows p m) ≡ none
unfolding keep_rows Assoc.get
absent_stays p k [] e = refl
absent_stays p k ((id, row) ∷ m) e = ground (arith, absent_stays p k m)

HasKeysOnce-keep :
    (p : AssignmentRow → Bool) (m : Assoc AssignmentRow)
    → HasKeysOnce m
    → HasKeysOnce (keep_rows p m)
unfolding keep_rows
HasKeysOnce-keep p [] h = tt
HasKeysOnce-keep p ((id, row) ∷ m) h = elim (Bool-cases (p row)) [
  | inl e ↦ rw e (HasKeysOnce-keep p m h.1)
  | inr e ↦ rw e (absent_stays p id m h.0, HasKeysOnce-keep p m h.1)
]

-- Each statement keeps the keys apart.
run-HasPrimaryKeys :
    (statement : Statement) (t : Tables) → HasPrimaryKeys t → HasPrimaryKeys (run statement t).0
unfolding run run_update run_delete
run-HasPrimaryKeys (upsert_node k text) t h = record {
  nodes = HasKeysOnce-put k text _ h.nodes;
  services = h.services;
  jobs = h.jobs;
  assignments = h.assignments;
}
run-HasPrimaryKeys (upsert_service k text) t h = record {
  nodes = h.nodes;
  services = HasKeysOnce-put k text _ h.services;
  jobs = h.jobs;
  assignments = h.assignments;
}
run-HasPrimaryKeys (upsert_job k text) t h = record {
  nodes = h.nodes;
  services = h.services;
  jobs = HasKeysOnce-put k text _ h.jobs;
  assignments = h.assignments;
}
run-HasPrimaryKeys (upsert_assignment k row) t h = record {
  nodes = h.nodes;
  services = h.services;
  jobs = h.jobs;
  assignments = HasKeysOnce-put k row _ h.assignments;
}
run-HasPrimaryKeys (update_data Tables.nodes k text) t h = record {
  nodes = HasKeysOnce-alter _ k _ h.nodes;
  services = h.services;
  jobs = h.jobs;
  assignments = h.assignments;
}
run-HasPrimaryKeys (update_data Tables.services k text) t h = record {
  nodes = h.nodes;
  services = HasKeysOnce-alter _ k _ h.services;
  jobs = h.jobs;
  assignments = h.assignments;
}
run-HasPrimaryKeys (update_data Tables.jobs k text) t h = record {
  nodes = h.nodes;
  services = h.services;
  jobs = HasKeysOnce-alter _ k _ h.jobs;
  assignments = h.assignments;
}
run-HasPrimaryKeys (update_data Tables.assignments k text) t h = record {
  nodes = h.nodes;
  services = h.services;
  jobs = h.jobs;
  assignments = HasKeysOnce-alter _ k _ h.assignments;
}
run-HasPrimaryKeys (delete_key Tables.nodes k) t h = record {
  nodes = HasKeysOnce-drop k _ h.nodes;
  services = h.services;
  jobs = h.jobs;
  assignments = h.assignments;
}
run-HasPrimaryKeys (delete_key Tables.services k) t h = record {
  nodes = h.nodes;
  services = HasKeysOnce-drop k _ h.services;
  jobs = h.jobs;
  assignments = h.assignments;
}
run-HasPrimaryKeys (delete_key Tables.jobs k) t h = record {
  nodes = h.nodes;
  services = h.services;
  jobs = HasKeysOnce-drop k _ h.jobs;
  assignments = h.assignments;
}
run-HasPrimaryKeys (delete_key Tables.assignments k) t h = record {
  nodes = h.nodes;
  services = h.services;
  jobs = h.jobs;
  assignments = HasKeysOnce-drop k _ h.assignments;
}
run-HasPrimaryKeys (delete_owned kind name) t h = record {
  nodes = h.nodes;
  services = h.services;
  jobs = h.jobs;
  assignments = HasKeysOnce-keep _ _ h.assignments;
}

same_rows : {t : Tables} → SameRows t t
same_rows = record {
  nodes = λ k. refl;
  services = λ k. refl;
  jobs = λ k. refl;
  assignments = λ k. refl;
}

-- Calls that never fail.
abbrev Database : Type 0
Database = (t : Tables) × HasPrimaryKeys t

abbrev tables_engine : Engine Database
tables_engine = record {
  begin = λ db. true;
  exec = λ db statement.
      some
        (((run statement db.0).0, run-HasPrimaryKeys statement db.0 db.1), (run statement db.0).1);
  query = λ db query. some (select query db.0);
  commit = λ db. some db;
}

abbrev tables_law : IsSqlite tables_engine
tables_law = record {
  view = λ db. db.0;
  primary_keys = λ db. db.1;
  exec_runs = λ db statement {out} e.
      let same : (run statement db.0).0 ≡ out.0.0 =
        ap (λ (o : Database × ℕ). o.0.0) (some-injective _ out e) in
      subst (λ t. SameRows t (run statement db.0).0) same same_rows;
  exec_deleted =
      λ db table key {out} e. sym (ap (λ (o : Database × ℕ). o.1) (some-injective _ out e));
  query_selects = λ db query {rows} e. sym (some-injective (select query db.0) rows e);
  commit_keeps =
      λ db {db'} e. subst (λ (d : Database). SameRows d.0 db.0) (some-injective db db' e) same_rows;
}

abbrev empty_tables : Database
empty_tables = (
  record { node_rows = []; service_rows = []; job_rows = []; assignment_rows = [] },
  record { nodes = tt; services = tt; jobs = tt; assignments = tt },
)

empty-Represents : Represents formats empty_tables.0 new_memory_store
unfolding Assoc.get
empty-Represents = record {
  nodes = λ k. tt;
  services = λ k. tt;
  jobs = λ k. tt;
  assignments = λ k. tt;
  keyed = new-IsKeyed;
}

-- A service and a copy of it are stored, the service is deleted, and the state is read.
abbrev replica : Assignment
replica = record (work "web-1" Phases.service "web" "node-a" running) { created_at = epoch }

abbrev calls : List Method
calls =
    Methods.upsert_service web
    ∷ Methods.save_assignment replica
    ∷ Methods.list_assignments
    ∷ Methods.delete_service "web"
    ∷ Methods.snapshot
    ∷ []

replica-IsStorable : IsStorable replica
unfolding kind_text
replica-IsStorable = record { timely = (omega arith, omega arith); kind = refl }

sql_call-Refines_example :
    Refines tables_law formats new_memory_store
      (memory_call new_memory_store (Methods.save_assignment replica)).0
      (memory_call new_memory_store (Methods.save_assignment replica)).1
      (sql_call tables_engine formats (Methods.save_assignment replica) empty_tables)
sql_call-Refines_example =
    sql_call-Refines tables_engine tables_law formats formats-AreLossless empty_tables
      new_memory_store (Methods.save_assignment replica) replica-IsStorable empty-Represents

sql_session-Refines_example :
    SessionRefines tables_engine tables_law formats formats-AreLossless new_memory_store calls
      (sql_session tables_engine formats calls empty_tables)
sql_session-Refines_example =
    sql_session-Refines tables_engine tables_law formats formats-AreLossless empty_tables
      new_memory_store calls (tt, (replica-IsStorable, (tt, (tt, (tt, tt))))) empty-Represents
