-- ===== src/Sqlite/Assignments.antt =====
-- The writes of `SQLiteStore` to assignments (internal/store/sqlite.go) do what those of `MemoryStore` do.
use mathlib.Core.Option.{some-injective}
use k3_control_plane.Base.{
  String, ◌≡◌, refl, sym, ap, ◌∙◌, subst, Option, none, some, inl, inr, arith, Option-cases,
  Bool-cases, ◌==◌, eq_iff,
}
use k3_control_plane.Base.Assoc
use k3_control_plane.Base.Assoc.{Assoc, get-put}
use k3_control_plane.Api.{Time, Assignment}
use k3_control_plane.Api.Phases.{Phase, is_terminal_phase}
use k3_control_plane.Api.Clone.{clone_assignment_lem}
use k3_control_plane.Store
use k3_control_plane.Store.{MemoryStore, apply_status}
use k3_control_plane.Store.Keyed.{
  save_assignment-IsKeyed, delete_assignment-IsKeyed, update_assignment_status-IsKeyed,
}
use k3_control_plane.Sqlite.Tables.{
  Tables, AssignmentRow, Statement, upsert_assignment, delete_key, run, run_update, run_delete,
  alter, drop_key, set_data, data_in,
}
use k3_control_plane.Sqlite.Tables
use k3_control_plane.Sqlite.{
  Engine, Codecs, assignment_row, sql_save_assignment, sql_delete_assignment,
  sql_update_assignment_status,
}
use k3_control_plane.Sqlite.Represents.{
  SameRows, IsSqlite, AreLossless, Both, IsRowOf, IsStorable, Represents, Represents-same, Both-put,
  Both-remove,
}
use k3_control_plane.Sqlite.Cases.{exec_fails, exec_encoded_case, update_case, or_crash_case}
use k3_control_plane.Sqlite.Refinement.{
  engine_fails, assignment_fails, fails, Refines, none_of-Both, some_of-Both,
}

-- A row with the object that is stored, written again, and with a new one.
pub apply_status-IsRowOf :
    (json : Codecs) (row : AssignmentRow) (a : Assignment) (phase : Phase) (message : String)
    (now : Time) (text : String)
    → IsRowOf json row a
    → json.assignment.decode text ≡ some (apply_status a phase message now).0
    → IsRowOf json (set_data text row) (apply_status a phase message now).0
unfolding apply_status set_data
apply_status-IsRowOf json row a phase message now text r d =
    elim (Bool-cases (is_terminal_phase a.phase)) [
      | inl e ↦
          rw (e, apply_status)
            (record {
              decoded = rw (e, apply_status) at d;
              node_id = r.node_id;
              owner_kind = r.owner_kind;
              owner_name = r.owner_name;
              created_at = r.created_at;
              storable = r.storable;
            })
      | inr e ↦
          rw (e, apply_status)
            (record {
              decoded = rw (e, apply_status) at d;
              node_id = r.node_id;
              owner_kind = r.owner_kind;
              owner_name = r.owner_name;
              created_at = r.created_at;
              storable = record { timely = r.storable.timely; kind = r.storable.kind };
            })
    ]

no_data :
    (o : Option AssignmentRow)
    → (elim o [ none ↦ none | some row ↦ some row.data_column ]) ≡ none
    → o ≡ none
no_data none e = refl
no_data (some row) e = cc

row_of_data :
    (o : Option AssignmentRow) (text : String)
    → (elim o [ none ↦ none | some row ↦ some row.data_column ]) ≡ some text
    → (row : AssignmentRow) × (o ≡ some row) × (row.data_column ≡ text)
row_of_data none text e = cc
row_of_data (some row) text e = (row, refl, some-injective row.data_column text e)

-- The row of a stored object is written again.
Both-again :
    {V A : Type 0} (R : V → A → Type 0) (key : String) (v : V) (a : A) (m : Assoc V) (n : Assoc A)
    → R v a
    → Assoc.get key n ≡ some a
    → ((k : String) → Both R (Assoc.get k m) (Assoc.get k n))
    → (k : String) → Both R (Assoc.get k (Assoc.put key v m)) (Assoc.get k n)
Both-again R key v a m n r found h k = rw (get-put key k v m) (elim (Bool-cases (key == k)) [
  | inl e ↦ rw (e, ap (λ x. Assoc.get x n) (sym ((eq_iff key k).0 e)) ∙ found) r
  | inr e ↦ rw e (h k)
])

module _ {Db : Type 0} (engine : Engine Db) (law : IsSqlite engine) (json : Codecs)
    (lossless : AreLossless json) (db : Db) (s : MemoryStore)
    (r : Represents json (law.view db) s) where
  pub sql_save_assignment-Refines :
      (a : Assignment)
      → IsStorable a
      → Refines law json s (Store.save_assignment s a) tt (sql_save_assignment engine json a db)
  unfolding sql_save_assignment Store.save_assignment run assignment_row
  sql_save_assignment-Refines a storable =
      exec_encoded_case engine law db (Refines law json s (Store.save_assignment s a) tt)
        json.assignment a (λ text. upsert_assignment a.id (assignment_row a text))
        lossless.assignment (fails engine json json.assignment assignment_fails r)
        (λ text db' decoded same. (
          Represents-same json (law.view db') _ (Store.save_assignment s a) same (record {
            assignments = rw clone_assignment_lem (
                Both-put (IsRowOf json) a.id (assignment_row a text) a (law.view db).assignment_rows
                  s.assignments
                  (record {
                    decoded = decoded;
                    node_id = refl;
                    owner_kind = refl;
                    owner_name = refl;
                    created_at = refl;
                    storable = storable;
                  })
                  r.assignments);
            nodes = r.nodes;
            services = r.services;
            jobs = r.jobs;
            keyed = save_assignment-IsKeyed s a r.keyed;
          }),
          refl,
        ))

  pub sql_delete_assignment-Refines :
      (id : String)
      → Refines law json s
          (Store.delete_assignment s id).0
          (Store.delete_assignment s id).1
          (sql_delete_assignment engine json id db)
  unfolding sql_delete_assignment Store.delete_assignment run run_delete drop_key
  sql_delete_assignment-Refines id =
      or_crash_case
        (Refines law json s (Store.delete_assignment s id).0 (Store.delete_assignment s id).1) db
        (engine.exec db (delete_key Tables.assignments id)) _
        (λ e. (r, engine_fails (exec_fails db _ e)))
        λ out ran.
          let same = law.exec_runs db (delete_key Tables.assignments id) ran in
          let n = law.exec_deleted db Tables.assignments id ran in
          elim (Option-cases (Assoc.get id (law.view db).assignment_rows)) [
            | inl absent ↦
                let missing = none_of-Both (IsRowOf json) _ _ (r.assignments id) absent in
                let same' : SameRows (law.view out.0) (law.view db) =
                  rw (absent, drop_key) at same in
                let n' : out.1 ≡ 0 = rw (absent, drop_key) at n in
                rw (missing, Store.delete_assignment)
                  (Represents-same json (law.view out.0) _ s same' r, ground (arith, n'))
            | inr (row, present) ↦
                let (a, found, _) =
                  some_of-Both (IsRowOf json) _ _ row (r.assignments id) present in
                let n' : out.1 ≡ 1 = rw (present, drop_key) at n in
                let keyed = delete_assignment-IsKeyed s id r.keyed in
                let same' : SameRows (law.view out.0) (record (law.view db) {
                  assignment_rows = Assoc.remove id (law.view db).assignment_rows;
                }) =
                  rw (present, drop_key) at same in
                rw (found, Store.delete_assignment)
                  (
                    Represents-same json (law.view out.0) _ _ same' (record {
                      assignments =
                          Both-remove (IsRowOf json) id (law.view db).assignment_rows s.assignments
                            r.assignments;
                      nodes = r.nodes;
                      services = r.services;
                      jobs = r.jobs;
                      keyed = rw (found, Store.delete_assignment) at keyed;
                    }),
                    ground (arith, n'),
                  )
          ]

  -- The row that is rewritten stands for the object of the store after `apply_status`, or for the one
  -- that stays, where the status has not changed.
  updated :
      (id : String) (phase : Phase) (message : String) (now : Time) (a : Assignment) (text : String)
      (row : AssignmentRow)
      → Assoc.get id s.assignments ≡ some a
      → IsRowOf json (set_data text row) (apply_status a phase message now).0
      → Represents json
          (record (law.view db) {
            assignment_rows = Assoc.put id (set_data text row) (law.view db).assignment_rows;
          })
          (Store.update_assignment_status s id phase message now).0
  unfolding Store.update_assignment_status apply_status
  updated id phase message now a text row stored of =
      let keyed = update_assignment_status-IsKeyed s id phase message now r.keyed in
      elim (Bool-cases (is_terminal_phase a.phase)) [
        | inl e ↦
            rw (stored, Store.update_assignment_status, e)
              (record {
                nodes = r.nodes;
                services = r.services;
                jobs = r.jobs;
                assignments =
                    Both-again (IsRowOf json) id (set_data text row) a (law.view db).assignment_rows
                      s.assignments (rw (e, apply_status) at of) stored r.assignments;
                keyed = r.keyed;
              })
        | inr e ↦
            rw (stored, Store.update_assignment_status, e)
              (record {
                nodes = r.nodes;
                services = r.services;
                jobs = r.jobs;
                assignments =
                    Both-put (IsRowOf json) id (set_data text row) _ (law.view db).assignment_rows
                      s.assignments (rw (e, apply_status) at of) r.assignments;
                keyed = rw (stored, Store.update_assignment_status, e) at keyed;
              })
      ]

  pub sql_update_assignment_status-Refines :
      (id : String) (phase : Phase) (message : String) (now : Time)
      → Refines law json s
          (Store.update_assignment_status s id phase message now).0
          (Store.update_assignment_status s id phase message now).1
          (sql_update_assignment_status engine json id phase message now db)
  unfolding sql_update_assignment_status Store.update_assignment_status data_in run run_update alter
  sql_update_assignment_status-Refines id phase message now =
      update_case engine law db
        (Refines law json s (Store.update_assignment_status s id phase message now).0
          (Store.update_assignment_status s id phase message now).1)
        json.assignment Tables.assignments id (λ a. (apply_status a phase message now).0)
        lossless.assignment
        (λ text present.
          let (row, at_id, column) = row_of_data _ text present in
          let (a, _, of) = some_of-Both (IsRowOf json) _ _ row (r.assignments id) at_id in
          (a, ap json.assignment.decode (sym column) ∙ of.decoded))
        (fails engine json json.assignment assignment_fails r)
        (λ absent.
          rw
            (
              none_of-Both (IsRowOf json) _ _ (r.assignments id) (no_data _ absent),
              Store.update_assignment_status,
            )
            (r, refl))
        (λ text text' item db' present decoded decoded' same.
          let (row, at_id, column) = row_of_data _ text present in
          let (a, found, of) = some_of-Both (IsRowOf json) _ _ row (r.assignments id) at_id in
          let item_is : a ≡ item =
            some-injective a item (sym of.decoded ∙ (ap json.assignment.decode column ∙ decoded)) in
          let stored : Assoc.get id s.assignments ≡ some item = found ∙ ap some item_is in
          let of' = subst (IsRowOf json row) item_is of in
          let altered : SameRows (law.view db') (record (law.view db) {
            assignment_rows = Assoc.put id (set_data text' row) (law.view db).assignment_rows;
          }) =
            rw (at_id, alter) at same in
          (
            Represents-same json (law.view db') _ _ altered (
                updated id phase message now item text' row stored
                  (apply_status-IsRowOf json row item phase message now text' of' decoded')),
            rw (stored, Store.update_assignment_status, clone_assignment_lem) refl,
          ))
