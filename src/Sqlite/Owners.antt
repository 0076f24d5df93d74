-- ===== src/Sqlite/Owners.antt =====
-- `deleteOwner` and `HasAssignment` of `SQLiteStore` (internal/store/sqlite.go) do what `DeleteService`,
-- `DeleteJob` and `HasAssignment` of `MemoryStore` do.
use k3_control_plane.Base.{
  String, Bool, ◌≡◌, refl, sym, ap, ◌∙◌, Option, none, some, [], ◌∷◌, inl, inr, arith, Option-cases,
  Bool-cases, ◌==◌, eq_iff, if◌then◌else◌,
}
use k3_control_plane.Base.Assoc
use k3_control_plane.Base.Assoc.{Assoc, get-put}
use k3_control_plane.Api.{Assignment}
use k3_control_plane.Api.Phases.{Kind, kind_eq, kind_eq_iff}
use k3_control_plane.Api.Phases
use k3_control_plane.Store
use k3_control_plane.Store.{MemoryStore, is_owned_by}
use k3_control_plane.Store.Delete.{
  Deleted, unless_owned, delete_service-Deleted, delete_job-Deleted,
}
use k3_control_plane.Store.Keyed.{delete_service-IsKeyed, delete_job-IsKeyed}
use k3_control_plane.Sqlite.Tables.{
  Tables, AssignmentRow, Statement, run, run_delete, drop_key, is_owned_row, keep_rows, select,
  assignment_exists,
}
use k3_control_plane.Sqlite.Tables
use k3_control_plane.Sqlite.{
  Engine, Codecs, kind_text, sql_delete_service, sql_delete_job, sql_has_assignment,
}
use k3_control_plane.Sqlite.Represents.{
  SameRows, IsSqlite, HasKeysOnce, Both, IsDecoded, IsRowOf, kind_of, Represents, Both-remove,
}
use k3_control_plane.Sqlite.Cases.{query_fails, delete_owner_case, or_crash_case}
use k3_control_plane.Sqlite.Refinement.{engine_fails, Refines, none_of-Both, some_of-Both}

abbrev unless_row : String → String → Option AssignmentRow → Option AssignmentRow
unless_row kind name none = none
unless_row kind name (some row) = if is_owned_row kind name row then none else some row

absent_stays :
    (p : AssignmentRow → Bool) (k : String) (m : Assoc AssignmentRow)
    → Assoc.get k m ≡ none
    → Assoc.get k (keep_rows p m) ≡ none
unfolding keep_rows Assoc.get
absent_stays p k [] e = refl
absent_stays p k ((id, row) ∷ m) e = ground (arith, absent_stays p k m)

get-keep_rows :
    (kind name k : String) (m : Assoc AssignmentRow)
    → HasKeysOnce m
    → Assoc.get k (keep_rows (is_owned_row kind name) m) ≡ unless_row kind name (Assoc.get k m)
unfolding keep_rows Assoc.get
get-keep_rows kind name k [] h = refl
get-keep_rows kind name k ((id, row) ∷ m) h = elim (Bool-cases (id == k)) [
  | inl e ↦
      let absent = absent_stays (is_owned_row kind name) k m (rw ((eq_iff id k).0 e) at h.0) in
      rw e (ground (arith, absent, e))
  | inr e ↦ rw e (ground (arith, e, get-keep_rows kind name k m h.1))
]

-- Two kinds that are read back from their texts are equal where the texts are.
kind_text-kind_eq :
    (p q : Kind)
    → kind_of (kind_text p) ≡ p
    → kind_of (kind_text q) ≡ q
    → (kind_text p == kind_text q) ≡ kind_eq p q
kind_text-kind_eq p q hp hq = elim (Bool-cases (kind_text p == kind_text q)) [
  | inl e ↦
      let same : p ≡ q = sym hp ∙ (ap kind_of ((eq_iff (kind_text p) (kind_text q)).0 e) ∙ hq) in
      e ∙ sym ((kind_eq_iff p q).1 same)
  | inr e ↦ elim (Bool-cases (kind_eq p q)) [
    | inl k ↦
        let same = (eq_iff (kind_text p) (kind_text q)).1 (ap kind_text ((kind_eq_iff p q).0 k)) in
        ground (arith, e, same)
    | inr k ↦ e ∙ sym k
  ]
]

pub is_owned-same :
    (json : Codecs) (kind : Kind) (name : String) (row : AssignmentRow) (a : Assignment)
    → kind_of (kind_text kind) ≡ kind
    → IsRowOf json row a
    → is_owned_row (kind_text kind) name row ≡ is_owned_by kind name a
unfolding is_owned_row is_owned_by
is_owned-same json kind name row a hk r =
    rw (r.owner_kind, r.owner_name, kind_text-kind_eq a.owner_kind kind r.storable.kind hk) refl

Both-unless :
    (json : Codecs) (kind : Kind) (name : String) (o : Option AssignmentRow) (p : Option Assignment)
    → kind_of (kind_text kind) ≡ kind
    → Both (IsRowOf json) o p
    → Both (IsRowOf json) (unless_row (kind_text kind) name o) (unless_owned kind name p)
Both-unless json kind name none none hk b = tt
Both-unless json kind name none (some a) hk b = absurd b
Both-unless json kind name (some row) none hk b = absurd b
Both-unless json kind name (some row) (some a) hk b = elim (Bool-cases (is_owned_by kind name a)) [
  | inl e ↦ rw (is_owned-same json kind name row a hk b, e) tt
  | inr e ↦ rw (is_owned-same json kind name row a hk b, e) b
]

module _ {Db : Type 0} (engine : Engine Db) (law : IsSqlite engine) (json : Codecs) (db : Db)
    (s : MemoryStore) (r : Represents json (law.view db) s) where
  -- The rows of assignments after both deletions.
  owned_gone :
      (kind : Kind) (name : String) (mid db' : Db) (t : MemoryStore)
      → kind_of (kind_text kind) ≡ kind
      → ((k : String)
          → Assoc.get k (law.view mid).assignment_rows ≡ Assoc.get k (law.view db).assignment_rows)
      → SameRows (law.view db') (run (Tables.delete_owned (kind_text kind) name) (law.view mid)).0
      → Deleted kind name s t
      → (k : String)
      → Both (IsRowOf json) (Assoc.get k (law.view db').assignment_rows) (Assoc.get k t.assignments)
  unfolding run
  owned_gone kind name mid db' t hk kept same deleted k =
      rw
        (
          same.assignments k,
          get-keep_rows (kind_text kind) name k (law.view mid).assignment_rows
              (law.primary_keys mid).assignments,
          kept k,
          deleted.assignments k,
        )
        (Both-unless json kind name _ _ hk (r.assignments k))

  pub sql_delete_service-Refines :
      (name : String)
      → Refines law json s
          (Store.delete_service s name).0
          (Store.delete_service s name).1
          (sql_delete_service engine json name db)
  unfolding sql_delete_service Store.delete_service run run_delete drop_key kind_text
  sql_delete_service-Refines name =
      elim (Option-cases (Assoc.get name (law.view db).service_rows)) [
        | inl absent ↦
            let missing = none_of-Both (IsDecoded json.service) _ _ (r.services name) absent in
            delete_owner_case engine law db
              (Refines law json s (Store.delete_service s name).0 (Store.delete_service s name).1)
              Tables.services Phases.service name (λ f. (r, engine_fails f))
              (λ _. rw (missing, Store.delete_service) (r, refl))
              (λ mid db' n kept same. absurd (ground (arith, rw (absent, drop_key) at n)))
        | inr (text, present) ↦
            let (v, found, _) =
              some_of-Both (IsDecoded json.service) _ _ text (r.services name) present in
            let (answer, deleted, gone, jobs) = delete_service-Deleted s name r.keyed found in
            delete_owner_case engine law db
              (Refines law json s (Store.delete_service s name).0 (Store.delete_service s name).1)
              Tables.services Phases.service name (λ f. (r, engine_fails f))
              (λ n. absurd (ground (arith, rw (present, drop_key) at n)))
              (λ mid db' n kept same.
                let kept' : SameRows (law.view mid) (record (law.view db) {
                  service_rows = Assoc.remove name (law.view db).service_rows;
                }) =
                  rw (present, drop_key) at kept in
                let keyed = delete_service-IsKeyed s name r.keyed in
                rw (found, Store.delete_service)
                  (
                    record {
                      nodes = λ k. rw (same.nodes k, kept'.nodes k) (r.nodes k);
                      services = λ k.
                          rw (same.services k, kept'.services k)
                            (Both-remove (IsDecoded json.service) name (law.view db).service_rows
                              s.services r.services k);
                      jobs = λ k. rw (same.jobs k, kept'.jobs k) (r.jobs k);
                      assignments =
                          owned_gone Phases.service name mid db' _ refl kept'.assignments same
                            (rw (found, Store.delete_service) at deleted);
                      keyed = rw (found, Store.delete_service) at keyed;
                    },
                    refl,
                  ))
      ]

  pub sql_delete_job-Refines :
      (name : String)
      → Refines law json s
          (Store.delete_job s name).0
          (Store.delete_job s name).1
          (sql_delete_job engine json name db)
  unfolding sql_delete_job Store.delete_job run run_delete drop_key kind_text
  sql_delete_job-Refines name = elim (Option-cases (Assoc.get name (law.view db).job_rows)) [
    | inl absent ↦
        let missing = none_of-Both (IsDecoded json.job) _ _ (r.jobs name) absent in
        delete_owner_case engine law db
          (Refines law json s (Store.delete_job s name).0 (Store.delete_job s name).1) Tables.jobs
          Phases.job name (λ f. (r, engine_fails f)) (λ _. rw (missing, Store.delete_job) (r, refl))
          (λ mid db' n kept same. absurd (ground (arith, rw (absent, drop_key) at n)))
    | inr (text, present) ↦
        let (j, found, _) = some_of-Both (IsDecoded json.job) _ _ text (r.jobs name) present in
        let (answer, deleted, gone, services) = delete_job-Deleted s name r.keyed found in
        delete_owner_case engine law db
          (Refines law json s (Store.delete_job s name).0 (Store.delete_job s name).1) Tables.jobs
          Phases.job name (λ f. (r, engine_fails f))
          (λ n. absurd (ground (arith, rw (present, drop_key) at n)))
          (λ mid db' n kept same.
            let kept' : SameRows (law.view mid)
                (record (law.view db) { job_rows = Assoc.remove name (law.view db).job_rows }) =
              rw (present, drop_key) at kept in
            let keyed = delete_job-IsKeyed s name r.keyed in
            rw (found, Store.delete_job)
              (
                record {
                  nodes = λ k. rw (same.nodes k, kept'.nodes k) (r.nodes k);
                  jobs = λ k.
                      rw (same.jobs k, kept'.jobs k)
                        (Both-remove (IsDecoded json.job) name (law.view db).job_rows s.jobs r.jobs
                          k);
                  services = λ k. rw (same.services k, kept'.services k) (r.services k);
                  assignments =
                      owned_gone Phases.job name mid db' _ refl kept'.assignments same
                        (rw (found, Store.delete_job) at deleted);
                  keyed = rw (found, Store.delete_job) at keyed;
                },
                refl,
              ))
  ]

  pub sql_has_assignment-Refines :
      (id : String)
      → Refines law json s s (Store.has_assignment s id) (sql_has_assignment engine json id db)
  unfolding sql_has_assignment Store.has_assignment select
  sql_has_assignment-Refines id =
      or_crash_case (Refines law json s s (Store.has_assignment s id)) db
        (engine.query db (assignment_exists id)) _ (λ e. (r, engine_fails (query_fails db _ e)))
        λ rows queried.
          let selected = law.query_selects db (assignment_exists id) queried in
          elim (Option-cases (Assoc.get id (law.view db).assignment_rows)) [
            | inl absent ↦
                let rows_are : rows ≡ [] = selected ∙ rw (absent, select) refl in
                let missing = none_of-Both (IsRowOf json) _ _ (r.assignments id) absent in
                rw (rows_are, missing, Store.has_assignment) (r, refl)
            | inr (row, present) ↦
                let rows_are : rows ≡ "1" ∷ [] = selected ∙ rw (present, select) refl in
                let (a, found, _) =
                  some_of-Both (IsRowOf json) _ _ row (r.assignments id) present in
                rw (rows_are, found, Store.has_assignment) (r, refl)
          ]
