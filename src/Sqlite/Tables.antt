-- ===== src/Sqlite/Tables.antt =====
-- internal/store/sqlite.go: the tables of the schema, and the statements and queries that the store sends
-- to the engine, one constructor for each SQL text. The engine is not code of this repository: `run` and
-- `select` are the documented meaning of these texts, which `IsSqlite` in Sqlite asks of it.
use k3_control_plane.Base.{
  ℕ, String, Bool, true, ◌&&◌, ◌==◌, Option, none, some, List, [], ◌∷◌, map, filter_by, str_ltb,
  if◌then◌else◌,
}
use k3_control_plane.Base.Int.{ℤ, ltb_ℤ, int_eq}
use k3_control_plane.Base.Assoc
use k3_control_plane.Base.Assoc.{Assoc}
use k3_control_plane.Base.Sort.{sort_by}

pub data Table : Type 0 where
  nodes services jobs assignments : Table

-- The columns of an assignment but the primary key.
pub record AssignmentRow : Type 0 where
  pub node_id : String
  pub owner_kind : String
  pub owner_name : String
  pub created_at : ℤ
  pub data_column : String

-- Each table by its primary key.
pub record Tables : Type 0 where
  pub node_rows : Assoc String
  pub service_rows : Assoc String
  pub job_rows : Assoc String
  pub assignment_rows : Assoc AssignmentRow

pub data Statement : Type 0 where
  upsert_node upsert_service upsert_job : String → String → Statement
  upsert_assignment : String → AssignmentRow → Statement
  -- UPDATE table SET data = ? WHERE key = ?
  update_data : Table → String → String → Statement
  -- DELETE FROM table WHERE key = ?
  delete_key : Table → String → Statement
  -- DELETE FROM assignments WHERE owner_kind = ? AND owner_name = ?
  delete_owned : String → String → Statement

pub data Query : Type 0 where
  -- SELECT data FROM table WHERE key = ?
  data_of : Table → String → Query
  -- SELECT data FROM table ORDER BY key
  all_nodes all_services all_jobs : Query
  -- SELECT data FROM assignments … ORDER BY created_at, id
  all_assignments : Query
  node_assignments : String → Query
  owner_assignments : String → String → Query
  -- SELECT 1 FROM assignments WHERE id = ?
  assignment_exists : String → Query

unfoldable pub set_data : String → AssignmentRow → AssignmentRow
set_data text row = record row { data_column = text }

-- The row under a key is changed, if there is one; with the number of rows.
unfoldable pub alter : {V : Type 0} → (V → V) → String → Assoc V → Assoc V × ℕ
alter f key m = elim (Assoc.get key m) [ none ↦ (m, 0) | some v ↦ (Assoc.put key (f v) m, 1) ]

unfoldable pub drop_key : {V : Type 0} → String → Assoc V → Assoc V × ℕ
drop_key key m = elim (Assoc.get key m) [ none ↦ (m, 0) | some v ↦ (Assoc.remove key m, 1) ]

unfoldable pub is_owned_row : String → String → AssignmentRow → Bool
is_owned_row kind name row = row.owner_kind == kind && row.owner_name == name

-- The rows that a test does not hold of.
unfoldable pub keep_rows : (AssignmentRow → Bool) → Assoc AssignmentRow → Assoc AssignmentRow
keep_rows p [] = []
keep_rows p ((id, row) ∷ rest) =
    let others = keep_rows p rest in if p row then others else (id, row) ∷ others

unfoldable pub run_update : Table → String → String → Tables → Tables × ℕ
run_update nodes key text t =
    let (rows, n) = alter (λ _. text) key t.node_rows in (record t { node_rows = rows }, n)
run_update services key text t =
    let (rows, n) = alter (λ _. text) key t.service_rows in (record t { service_rows = rows }, n)
run_update jobs key text t =
    let (rows, n) = alter (λ _. text) key t.job_rows in (record t { job_rows = rows }, n)
run_update assignments key text t =
    let (rows, n) = alter (set_data text) key t.assignment_rows in
    (record t { assignment_rows = rows }, n)

unfoldable pub run_delete : Table → String → Tables → Tables × ℕ
run_delete nodes key t =
    let (rows, n) = drop_key key t.node_rows in (record t { node_rows = rows }, n)
run_delete services key t =
    let (rows, n) = drop_key key t.service_rows in (record t { service_rows = rows }, n)
run_delete jobs key t = let (rows, n) = drop_key key t.job_rows in (record t { job_rows = rows }, n)
run_delete assignments key t =
    let (rows, n) = drop_key key t.assignment_rows in (record t { assignment_rows = rows }, n)

-- The tables after a statement, and the number of rows that it says it affected; the store reads the
-- number of `delete_key` alone.
unfoldable pub run : Statement → Tables → Tables × ℕ
run (upsert_node key text) t = (record t { node_rows = Assoc.put key text t.node_rows }, 1)
run (upsert_service key text) t = (record t { service_rows = Assoc.put key text t.service_rows }, 1)
run (upsert_job key text) t = (record t { job_rows = Assoc.put key text t.job_rows }, 1)
run (upsert_assignment key row) t =
    (record t { assignment_rows = Assoc.put key row t.assignment_rows }, 1)
run (update_data table key text) t = run_update table key text t
run (delete_key table key) t = run_delete table key t
run (delete_owned kind name) t =
    (record t { assignment_rows = keep_rows (is_owned_row kind name) t.assignment_rows }, 0)

unfoldable pub column_of : Option String → List String
column_of none = []
column_of (some text) = text ∷ []

unfoldable pub data_in : Table → String → Tables → Option String
data_in nodes key t = Assoc.get key t.node_rows
data_in services key t = Assoc.get key t.service_rows
data_in jobs key t = Assoc.get key t.job_rows
data_in assignments key t = elim (Assoc.get key t.assignment_rows) [
  | none ↦ none
  | some row ↦ some row.data_column
]

-- ORDER BY the primary key, byte by byte.
unfoldable pub key_less : {V : Type 0} → String × V → String × V → Bool
key_less a b = str_ltb a.0 b.0

-- ORDER BY created_at, id
unfoldable pub row_less : String × AssignmentRow → String × AssignmentRow → Bool
row_less a b =
    if int_eq a.1.created_at b.1.created_at
    then str_ltb a.0 b.0
    else ltb_ℤ a.1.created_at b.1.created_at

unfoldable pub ordered_data : Assoc String → List String
ordered_data m = map (λ (e : String × String). e.1) (sort_by key_less m)

unfoldable pub ordered_rows : (AssignmentRow → Bool) → Assoc AssignmentRow → List String
ordered_rows p m =
    map (λ (e : String × AssignmentRow). e.1.data_column)
      (sort_by row_less (filter_by (λ (e : String × AssignmentRow). p e.1) m))

unfoldable pub select : Query → Tables → List String
select (data_of table key) t = column_of (data_in table key t)
select all_nodes t = ordered_data t.node_rows
select all_services t = ordered_data t.service_rows
select all_jobs t = ordered_data t.job_rows
select all_assignments t = ordered_rows (λ row. true) t.assignment_rows
select (node_assignments id) t = ordered_rows (λ row. row.node_id == id) t.assignment_rows
select (owner_assignments kind name) t = ordered_rows (is_owned_row kind name) t.assignment_rows
select (assignment_exists id) t = elim (Assoc.get id t.assignment_rows) [
  | none ↦ []
  | some _ ↦ "1" ∷ []
]
