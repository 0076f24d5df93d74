-- ===== src/Sqlite/Reads.antt =====
-- The reads of `SQLiteStore` (internal/store/sqlite.go) return what those of `MemoryStore` return.
use k3_control_plane.Base.{
  String, Bool, true, ◌≡◌, refl, sym, ap, ◌∙◌, some, List, [], ◌∷◌, map, ◌==◌, filter_by, str_ltb,
  str_ltb_total,
}
use k3_control_plane.Base.Assoc
use k3_control_plane.Base.Assoc.{Assoc}
use k3_control_plane.Base.Sort.{IsOrder, sort_by}
use k3_control_plane.Api.{Assignment, StateSnapshot}
use k3_control_plane.Api.Phases.{Kind}
use k3_control_plane.Api.Clone.{
  clone_node, clone_node_lem, clone_service, clone_service_lem, clone_job, clone_job_lem,
  clone_assignment, clone_assignment_lem,
}
use k3_control_plane.Store.{
  MemoryStore, is_owned_by, node_less, service_less, job_less, assignment_less, list_nodes,
  list_services, list_jobs, list_assignments, list_node_assignments, list_assignments_for_owner,
  snapshot,
}
use k3_control_plane.Store.Order.{
  node_less-IsOrder, service_less-IsOrder, job_less-IsOrder, assignment_less-IsOrder,
  assignment_less_total,
}
use k3_control_plane.Sqlite.Tables.{
  AssignmentRow, row_less, key_less, is_owned_row, ordered_data, ordered_rows, all_nodes,
  all_services, all_jobs, all_assignments, node_assignments, owner_assignments, select,
}
use k3_control_plane.Sqlite.{
  Engine, Codec, Codecs, Outcome, kind_text, decode_all, list_all, sql_list_nodes,
  sql_list_services, sql_list_jobs, sql_list_assignments, sql_list_node_assignments,
  sql_list_assignments_for_owner, sql_snapshot,
}
use k3_control_plane.Sqlite.Represents.{
  HasKeysOnce, IsSqlite, Both, IsDecoded, IsRowOf, kind_of, Represents, Represents-same,
}
use k3_control_plane.Sqlite.Cases.{EngineFails, commit_fails, or_crash_case, begin_case, list_case}
use k3_control_plane.Sqlite.Refinement.{CallFails, engine_fails, Refines}
use k3_control_plane.Sqlite.Owners.{is_owned-same}
use k3_control_plane.Sqlite.Aligned.{IsEntry}
use k3_control_plane.Sqlite.Listing.{
  IsSelection, IsListing, selected, decoded_is, stored-IsListing, filter_by-IsListing,
}
use k3_control_plane.Sqlite.Order.{key_less-IsOrder, row_less-IsOrder, unix_nano-eq, unix_nano-ltb}

filter_all : {A : Type 0} (xs : List A) → filter_by (λ (a : A). true) xs ≡ xs
unfolding filter_by
filter_all [] = refl
filter_all (x ∷ xs) = ap (λ ys. x ∷ ys) (filter_all xs)

-- The objects of a table that is ordered by its key.
by_key_items :
    {A : Type 0} (codec : Codec A) (key : A → String) (clone : A → A) (m : Assoc String)
    (n : Assoc A)
    → ((a : A) → clone a ≡ a)
    → IsOrder (λ (a b : A). str_ltb (key a) (key b))
    → Assoc.IsKeyed key n
    → HasKeysOnce m
    → ((k : String) → Both (IsDecoded codec) (Assoc.get k m) (Assoc.get k n))
    → decode_all codec (ordered_data m)
      ≡ some (sort_by (λ (a b : A). str_ltb (key a) (key b)) (map clone (Assoc.values n)))
unfolding ordered_data key_less
by_key_items {A} codec key clone m n clone_lem order keyed once both =
    let less : A → A → Bool = λ a b. str_ltb (key a) (key b) in
    let listed : IsSelection key_less (λ _. true) m
        (sort_by key_less (filter_by (λ (e : String × String). true) m)) =
      selected key_less (λ (_ : String). true) m key_less-IsOrder once in
    let rows : IsSelection key_less (λ _. true) m (sort_by key_less m) =
      rw (filter_all m) at listed in
    decoded_is (IsDecoded codec) codec (λ v. v) key key_less less (λ _. true) (λ _. true) m n
      (λ v a r. r) (λ v a r. refl)
      (λ e f a b is js.
        rw (Assoc.key-eq_of_get key e.0 a n keyed is.0, Assoc.key-eq_of_get key f.0 b n keyed js.0)
          refl)
      keyed once both _ _ (λ a b. str_ltb_total (key a) (key b)) rows
      (stored-IsListing key less clone n clone_lem order keyed)

row-same_order :
    (json : Codecs) (n : Assoc Assignment) (e f : String × AssignmentRow) (a b : Assignment)
    → Assoc.IsKeyed (λ (a : Assignment). a.id) n
    → IsEntry (IsRowOf json) n e a
    → IsEntry (IsRowOf json) n f b
    → row_less f e ≡ assignment_less b a
unfolding row_less assignment_less
row-same_order json n e f a b keyed is js =
    let id : Assignment → String = λ a. a.id in
    let k = sym (Assoc.key-eq_of_get id e.0 a n keyed is.0) in
    let l = sym (Assoc.key-eq_of_get id f.0 b n keyed js.0) in
    rw
      (
        is.1.created_at,
        js.1.created_at,
        unix_nano-eq b.created_at a.created_at js.1.storable.timely is.1.storable.timely,
        unix_nano-ltb b.created_at a.created_at js.1.storable.timely is.1.storable.timely,
        k,
        l,
      )
      refl

-- The assignments whose rows a test holds of.
row_items :
    (json : Codecs) (p : AssignmentRow → Bool) (q : Assignment → Bool) (m : Assoc AssignmentRow)
    (n : Assoc Assignment) (xs : List Assignment)
    → ((row : AssignmentRow) (a : Assignment) → IsRowOf json row a → p row ≡ q a)
    → Assoc.IsKeyed (λ (a : Assignment). a.id) n
    → HasKeysOnce m
    → ((k : String) → Both (IsRowOf json) (Assoc.get k m) (Assoc.get k n))
    → IsListing (λ (a : Assignment). a.id) assignment_less q n xs
    → decode_all json.assignment (ordered_rows p m) ≡ some xs
unfolding ordered_rows
row_items json p q m n xs same keyed once both listed =
    decoded_is (IsRowOf json) json.assignment (λ row. row.data_column) (λ (a : Assignment). a.id)
      row_less assignment_less p q m n (λ row a r. r.decoded) same
      (λ e f a b. row-same_order json n e f a b keyed) keyed once both _ xs assignment_less_total
      (selected row_less p m row_less-IsOrder once) listed

assignments-IsListing :
    (s : MemoryStore)
    → Assoc.IsKeyed (λ (a : Assignment). a.id) s.assignments
    → IsListing
        (λ (a : Assignment). a.id)
        assignment_less
        (λ _. true)
        s.assignments
        (list_assignments s)
unfolding list_assignments
assignments-IsListing s keyed =
    stored-IsListing (λ (a : Assignment). a.id) assignment_less clone_assignment s.assignments
      clone_assignment_lem assignment_less-IsOrder keyed

module _ {Db : Type 0} (engine : Engine Db) (law : IsSqlite engine) (json : Codecs) (db : Db)
    (s : MemoryStore) (r : Represents json (law.view db) s) where
  nodes_read : decode_all json.node (select all_nodes (law.view db)) ≡ some (list_nodes s)
  unfolding select list_nodes node_less
  nodes_read =
      by_key_items json.node (λ n. n.id) clone_node (law.view db).node_rows s.nodes clone_node_lem
        node_less-IsOrder r.keyed.nodes (law.primary_keys db).nodes r.nodes

  services_read :
      decode_all json.service (select all_services (law.view db)) ≡ some (list_services s)
  unfolding select list_services service_less
  services_read =
      by_key_items json.service (λ v. v.name) clone_service (law.view db).service_rows s.services
        clone_service_lem service_less-IsOrder r.keyed.services (law.primary_keys db).services
        r.services

  jobs_read : decode_all json.job (select all_jobs (law.view db)) ≡ some (list_jobs s)
  unfolding select list_jobs job_less
  jobs_read =
      by_key_items json.job (λ j. j.name) clone_job (law.view db).job_rows s.jobs clone_job_lem
        job_less-IsOrder r.keyed.jobs (law.primary_keys db).jobs r.jobs

  -- The assignments that a query keeps.
  kept_read :
      (p : AssignmentRow → Bool) (q : Assignment → Bool)
      → ((row : AssignmentRow) (a : Assignment) → IsRowOf json row a → p row ≡ q a)
      → decode_all json.assignment (ordered_rows p (law.view db).assignment_rows)
        ≡ some (filter_by q (list_assignments s))
  kept_read p q same =
      row_items json p q (law.view db).assignment_rows s.assignments
        (filter_by q (list_assignments s)) same r.keyed.assignments
        (law.primary_keys db).assignments r.assignments
        (filter_by-IsListing (λ (a : Assignment). a.id) assignment_less q s.assignments
          (list_assignments s) (assignments-IsListing s r.keyed.assignments))

  assignments_read :
      decode_all json.assignment (select all_assignments (law.view db)) ≡ some (list_assignments s)
  unfolding select
  assignments_read =
      kept_read (λ _. true) (λ _. true) (λ row a _. refl)
      ∙ ap some (filter_all (list_assignments s))

  fault : {X : Type 0} → X → EngineFails engine → X × CallFails engine json
  fault r f = (r, engine_fails f)

  pub sql_list_nodes-Refines : Refines law json s s (list_nodes s) (sql_list_nodes engine json db)
  unfolding sql_list_nodes list_all
  sql_list_nodes-Refines =
      list_case engine law db (Refines law json s s (list_nodes s)) json.node all_nodes _ _
        nodes_read (fault r) (r, refl)

  pub sql_list_services-Refines :
      Refines law json s s (list_services s) (sql_list_services engine json db)
  unfolding sql_list_services list_all
  sql_list_services-Refines =
      list_case engine law db (Refines law json s s (list_services s)) json.service all_services _ _
        services_read (fault r) (r, refl)

  pub sql_list_jobs-Refines : Refines law json s s (list_jobs s) (sql_list_jobs engine json db)
  unfolding sql_list_jobs list_all
  sql_list_jobs-Refines =
      list_case engine law db (Refines law json s s (list_jobs s)) json.job all_jobs _ _ jobs_read
        (fault r) (r, refl)

  pub sql_list_assignments-Refines :
      Refines law json s s (list_assignments s) (sql_list_assignments engine json db)
  unfolding sql_list_assignments list_all
  sql_list_assignments-Refines =
      list_case engine law db (Refines law json s s (list_assignments s)) json.assignment
        all_assignments _ _ assignments_read (fault r) (r, refl)

  pub sql_list_node_assignments-Refines :
      (node_id : String)
      → Refines law json s s
          (list_node_assignments s node_id)
          (sql_list_node_assignments engine json node_id db)
  unfolding sql_list_node_assignments list_all list_node_assignments select
  sql_list_node_assignments-Refines node_id =
      list_case engine law db (Refines law json s s (list_node_assignments s node_id))
        json.assignment (node_assignments node_id) _ _
        (kept_read (λ row. row.node_id == node_id) (λ a. a.node_id == node_id)
          (λ row a of. ap (λ x. x == node_id) of.node_id))
        (fault r) (r, refl)

  pub sql_list_assignments_for_owner-Refines :
      (kind : Kind) (name : String)
      → kind_of (kind_text kind) ≡ kind
      → Refines law json s s
          (list_assignments_for_owner s kind name)
          (sql_list_assignments_for_owner engine json kind name db)
  unfolding sql_list_assignments_for_owner list_all list_assignments_for_owner select
  sql_list_assignments_for_owner-Refines kind name known =
      list_case engine law db (Refines law json s s (list_assignments_for_owner s kind name))
        json.assignment (owner_assignments (kind_text kind) name) _ _
        (kept_read (is_owned_row (kind_text kind) name) (is_owned_by kind name)
          (λ row a of. is_owned-same json kind name row a known of))
        (fault r) (r, refl)

  pub sql_snapshot-Refines : Refines law json s s (snapshot s) (sql_snapshot engine json db)
  unfolding sql_snapshot snapshot
  sql_snapshot-Refines =
      let P : Outcome Db StateSnapshot → Type 0 = Refines law json s s (snapshot s) in
      begin_case engine law db P _ (fault r) (
        list_case engine law db P json.node all_nodes _ _ nodes_read (fault r) (
          list_case engine law db P json.service all_services _ _ services_read (fault r) (
            list_case engine law db P json.job all_jobs _ _ jobs_read (fault r) (
              list_case engine law db P json.assignment all_assignments _ _ assignments_read
                (fault r)
                (or_crash_case P db (engine.commit db) _ (λ e. fault r (commit_fails db e))
                  λ db' committed. (
                    Represents-same json (law.view db') _ s (law.commit_keeps db committed) r,
                    refl,
                  ))))))
