-- ===== src/Sqlite/Represents.antt =====
-- What the database of a `SQLiteStore` (internal/store/sqlite.go) says about the objects in it.
use k3_control_plane.Base.{
  ℕ, ◌≤◌, ◌<◌, ◌+◌, ◌*◌, ◌^◌, String, ◌≡◌, Option, none, some, List, [], ◌∷◌, inl, inr, ◌==◌,
  Bool-cases, if◌then◌else◌,
}
use k3_control_plane.Base.Assoc
use k3_control_plane.Base.Assoc.{Assoc, get-put, get-remove}
use k3_control_plane.Api.{Time, Assignment}
use k3_control_plane.Api.Phases.{Kind}
use k3_control_plane.Api.Phases
use k3_control_plane.Store.{MemoryStore}
use k3_control_plane.Store.Keyed.{IsKeyed}
use k3_control_plane.Sqlite.Tables.{
  Tables, AssignmentRow, Statement, delete_key, Query, Table, run, select,
}
use k3_control_plane.Sqlite.{Engine, Codec, Codecs, kind_text, unix_nano}

-- Each key stands in one row.
abbrev pub HasKeysOnce : {V : Type 0} → Assoc V → Type 0
HasKeysOnce [] = Unit
HasKeysOnce ((k, v) ∷ m) = (Assoc.get k m ≡ none) × HasKeysOnce m

pub record SameRows (t u : Tables) : Type 0 where
  pub nodes : (k : String) → Assoc.get k t.node_rows ≡ Assoc.get k u.node_rows
  pub services : (k : String) → Assoc.get k t.service_rows ≡ Assoc.get k u.service_rows
  pub jobs : (k : String) → Assoc.get k t.job_rows ≡ Assoc.get k u.job_rows
  pub assignments : (k : String) → Assoc.get k t.assignment_rows ≡ Assoc.get k u.assignment_rows

pub record HasPrimaryKeys (t : Tables) : Type 0 where
  pub nodes : HasKeysOnce t.node_rows
  pub services : HasKeysOnce t.service_rows
  pub jobs : HasKeysOnce t.job_rows
  pub assignments : HasKeysOnce t.assignment_rows

-- What the store asks of the engine: a call that succeeds does what its text says.
pub record IsSqlite {Db : Type 0} (engine : Engine Db) : Type 0 where
  pub view : Db → Tables
  pub primary_keys : (db : Db) → HasPrimaryKeys (view db)
  pub exec_runs :
      (db : Db) (statement : Statement) {out : Db × ℕ}
      → engine.exec db statement ≡ some out
      → SameRows (view out.0) (run statement (view db)).0
  pub exec_deleted :
      (db : Db) (table : Table) (key : String) {out : Db × ℕ}
      → engine.exec db (delete_key table key) ≡ some out
      → out.1 ≡ (run (delete_key table key) (view db)).1
  pub query_selects :
      (db : Db) (query : Query) {rows : List String}
      → engine.query db query ≡ some rows
      → rows ≡ select query (view db)
  pub commit_keeps :
      (db : Db) {db' : Db} → engine.commit db ≡ some db' → SameRows (view db') (view db)

-- What is encoded is decoded again.
abbrev pub IsLossless : {A : Type 0} → Codec A → Type 0
IsLossless {A} codec =
    (a : A) (text : String) → codec.encode a ≡ some text → codec.decode text ≡ some a

pub record AreLossless (json : Codecs) : Type 0 where
  pub node : IsLossless json.node
  pub service : IsLossless json.service
  pub job : IsLossless json.job
  pub assignment : IsLossless json.assignment

-- From 1678 to 2262, where an int64 counts the nanoseconds from 1970.
abbrev pub epoch : ℕ
epoch = 62135596800 * 10 ^ 9

abbrev pub IsTimely : Time → Type 0
IsTimely t = (epoch ≤ t + 2 ^ 63) × (t < epoch + 2 ^ 63)

-- A kind that is one of the two constants, or a text that is neither.
abbrev pub kind_of : String → Kind
kind_of text =
    if text == "service"
    then Phases.service
    else if text == "job"
    then Phases.job
    else Phases.other text

pub record IsStorable (a : Assignment) : Type 0 where
  pub timely : IsTimely a.created_at
  pub kind : kind_of (kind_text a.owner_kind) ≡ a.owner_kind

-- Two optional values are both missing, or both there and related.
abbrev pub Both : {V A : Type 0} → (V → A → Type 0) → Option V → Option A → Type 0
Both R none none = Unit
Both R none (some a) = ⊥
Both R (some v) none = ⊥
Both R (some v) (some a) = R v a

abbrev pub IsDecoded : {A : Type 0} → Codec A → String → A → Type 0
IsDecoded codec text a = codec.decode text ≡ some a

pub record IsRowOf (json : Codecs) (row : AssignmentRow) (a : Assignment) : Type 0 where
  pub decoded : json.assignment.decode row.data_column ≡ some a
  pub node_id : row.node_id ≡ a.node_id
  pub owner_kind : row.owner_kind ≡ kind_text a.owner_kind
  pub owner_name : row.owner_name ≡ a.owner_name
  pub created_at : row.created_at ≡ unix_nano a.created_at
  pub storable : IsStorable a

-- The rows hold the objects of the store, under the same keys.
pub record Represents (json : Codecs) (t : Tables) (s : MemoryStore) : Type 0 where
  pub nodes :
      (k : String) → Both (IsDecoded json.node) (Assoc.get k t.node_rows) (Assoc.get k s.nodes)
  pub services :
      (k : String)
      → Both (IsDecoded json.service) (Assoc.get k t.service_rows) (Assoc.get k s.services)
  pub jobs : (k : String) → Both (IsDecoded json.job) (Assoc.get k t.job_rows) (Assoc.get k s.jobs)
  pub assignments :
      (k : String) → Both (IsRowOf json) (Assoc.get k t.assignment_rows) (Assoc.get k s.assignments)
  pub keyed : IsKeyed s

pub Represents-same :
    (json : Codecs) (t u : Tables) (s : MemoryStore)
    → SameRows t u
    → Represents json u s
    → Represents json t s
Represents-same json t u s e r = record {
  nodes = λ k. rw (e.nodes k) (r.nodes k);
  services = λ k. rw (e.services k) (r.services k);
  jobs = λ k. rw (e.jobs k) (r.jobs k);
  assignments = λ k. rw (e.assignments k) (r.assignments k);
  keyed = r.keyed;
}

module _ {V A : Type 0} (R : V → A → Type 0) where
  pub Both-put :
      (key : String) (v : V) (a : A) (m : Assoc V) (n : Assoc A)
      → R v a
      → ((k : String) → Both R (Assoc.get k m) (Assoc.get k n))
      → (k : String) → Both R (Assoc.get k (Assoc.put key v m)) (Assoc.get k (Assoc.put key a n))
  Both-put key v a m n r h k =
      rw (get-put key k v m, get-put key k a n)
        (elim (Bool-cases (key == k)) [ inl e ↦ rw e r | inr e ↦ rw e (h k) ])

  pub Both-remove :
      (key : String) (m : Assoc V) (n : Assoc A)
      → ((k : String) → Both R (Assoc.get k m) (Assoc.get k n))
      → (k : String) → Both R (Assoc.get k (Assoc.remove key m)) (Assoc.get k (Assoc.remove key n))
  Both-remove key m n h k =
      rw (get-remove key k m, get-remove key k n)
        (elim (Bool-cases (key == k)) [ inl e ↦ rw e tt | inr e ↦ rw e (h k) ])
