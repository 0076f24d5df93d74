-- ===== src/Sqlite/Cases.antt =====
-- The ways in which a method of `SQLiteStore` (internal/store/sqlite.go) ends, for any property of its
-- outcome.
use k3_control_plane.Base.{
  String, Bool, true, false, ◌≡◌, refl, sym, ap, ◌∙◌, Option, none, some, List, inl, inr, ◌⊎◌,
  arith, nat_eq, Bool-cases, Option-cases,
}
use k3_control_plane.Api.Phases.{Kind}
use k3_control_plane.Sqlite.Tables.{
  Tables, Table, Statement, Query, update_data, delete_key, delete_owned, data_of, data_in,
  column_of, run, select,
}
use k3_control_plane.Sqlite.{
  Engine, Codec, Outcome, returned, crashed, or_crash, decode_all, kind_text, exec, exec_encoded,
  list, begin, update_row, update_rows, update, delete_owner,
}
use k3_control_plane.Sqlite.Represents.{SameRows, IsSqlite, IsLossless}

-- A call of the engine that fails.
pub data EngineFails {Db : Type 0} (engine : Engine Db) : Type 0 where
  begin_fails : (db : Db) → engine.begin db ≡ false → EngineFails engine
  exec_fails :
      (db : Db) (statement : Statement) → engine.exec db statement ≡ none → EngineFails engine
  query_fails : (db : Db) (query : Query) → engine.query db query ≡ none → EngineFails engine
  commit_fails : (db : Db) → engine.commit db ≡ none → EngineFails engine

-- An object that cannot be encoded.
abbrev pub EncodeFails : {A : Type 0} → Codec A → Type 0
EncodeFails {A} codec = (a : A) × (codec.encode a ≡ none)

-- `failOn`: the call fails and the old database stays, or its result is passed on.
pub or_crash_case :
    {Db A B : Type 0} (P : Outcome Db B → Type 0) (db : Db) (o : Option A) (next : A → Outcome Db B)
    → (o ≡ none → P (crashed db))
    → ((a : A) → o ≡ some a → P (next a))
    → P (or_crash db o next)
unfolding or_crash
or_crash_case P db none next c f = c refl
or_crash_case P db (some a) next c f = f a refl

pub trans_rows : {t u v : Tables} → SameRows t u → SameRows u v → SameRows t v
trans_rows e f = record {
  nodes = λ k. e.nodes k ∙ f.nodes k;
  services = λ k. e.services k ∙ f.services k;
  jobs = λ k. e.jobs k ∙ f.jobs k;
  assignments = λ k. e.assignments k ∙ f.assignments k;
}

module _ {Db : Type 0} (engine : Engine Db) (law : IsSqlite engine) (db : Db) where
  pub begin_case :
      {B : Type 0} (P : Outcome Db B → Type 0) (next : Outcome Db B)
      → (EngineFails engine → P (crashed db))
      → P next
      → P (begin engine db next)
  unfolding begin
  begin_case P next c n = elim (Bool-cases (engine.begin db)) [
    | inl e ↦ rw e n
    | inr e ↦ rw e (c (begin_fails db e))
  ]

  -- An upsert of an object that is encoded first.
  pub exec_encoded_case :
      {A : Type 0} (P : Outcome Db (Unit {0}) → Type 0) (codec : Codec A) (a : A)
      (statement : String → Statement)
      → IsLossless codec
      → (EngineFails engine ⊎ EncodeFails codec → P (crashed db))
      → ((text : String) (db' : Db)
          → codec.decode text ≡ some a
          → SameRows (law.view db') (run (statement text) (law.view db)).0
          → P (returned db' tt))
      → P (exec_encoded engine db (codec.encode a) statement)
  unfolding exec_encoded exec
  exec_encoded_case P codec a statement lossless c f =
      or_crash_case P db (codec.encode a) _ (λ e. c (inr (a, e)))
        λ text e.
          or_crash_case P db (engine.exec db (statement text)) _ (λ e. c (inl (exec_fails db _ e)))
            λ out ran. f text out.0 (lossless a text e) (law.exec_runs db (statement text) ran)

  -- `update`: there is no row, or the row is changed and written back.
  pub update_case :
      {A : Type 0} (P : Outcome Db (Option A) → Type 0) (codec : Codec A) (table : Table)
      (key : String) (mutate : A → A)
      → IsLossless codec
      → ((text : String)
          → data_in table key (law.view db) ≡ some text
          → (item : A) × (codec.decode text ≡ some item))
      → (EngineFails engine ⊎ EncodeFails codec → P (crashed db))
      → (data_in table key (law.view db) ≡ none → P (returned db none))
      → ((text text' : String) (item : A) (db' : Db)
          → data_in table key (law.view db) ≡ some text
          → codec.decode text ≡ some item
          → codec.decode text' ≡ some (mutate item)
          → SameRows (law.view db') (run (update_data table key text') (law.view db)).0
          → P (returned db' (some (mutate item))))
      → P (update engine codec table key mutate db)
  unfolding update update_rows update_row select column_of
  update_case {A} P codec table key mutate lossless readable c missing changed =
      begin_case P _ (λ f. c (inl f))
        (or_crash_case P db (engine.query db (data_of table key)) _
          (λ e. c (inl (query_fails db _ e)))
          λ rows queried.
            let selected = law.query_selects db (data_of table key) queried in
            elim (Option-cases (data_in table key (law.view db))) [
              | inl absent ↦ rw (selected, absent, column_of) (missing absent)
              | inr (text, present) ↦
                  let (read, read_is) = readable text present in
                  rw (selected, present, column_of)
                    (or_crash_case P db (codec.decode text) _ (λ e. absurd cc)
                      λ item decoded.
                        or_crash_case P db (codec.encode (mutate item)) _
                          (λ e. c (inr (mutate item, e)))
                          λ text' encoded.
                            or_crash_case P db (engine.exec db (update_data table key text')) _
                              (λ e. c (inl (exec_fails db _ e)))
                              λ out ran.
                                or_crash_case P db (engine.commit out.0) _
                                  (λ e. c (inl (commit_fails out.0 e)))
                                  λ db' committed.
                                    changed text text' item db' present decoded
                                      (lossless (mutate item) text' encoded)
                                      (trans_rows (law.commit_keeps out.0 committed)
                                        (law.exec_runs db _ ran)))
            ])

  -- `deleteOwner`: there is no owner, or it is deleted with what it owns.
  pub delete_owner_case :
      (P : Outcome Db Bool → Type 0) (table : Table) (kind : Kind) (name : String)
      → (EngineFails engine → P (crashed db))
      → ((run (delete_key table name) (law.view db)).1 ≡ 0 → P (returned db false))
      → ((mid db' : Db)
          → nat_eq (run (delete_key table name) (law.view db)).1 0 ≡ false
          → SameRows (law.view mid) (run (delete_key table name) (law.view db)).0
          → SameRows (law.view db') (run (delete_owned (kind_text kind) name) (law.view mid)).0
          → P (returned db' true))
      → P (delete_owner engine table kind name db)
  unfolding delete_owner
  delete_owner_case P table kind name c missing gone = begin_case P _ c (
      or_crash_case P db (engine.exec db (delete_key table name)) _ (λ e. c (exec_fails db _ e))
        λ out ran.
          let n = law.exec_deleted db table name ran in
          elim (Bool-cases (nat_eq out.1 0)) [
            | inl e ↦ rw e (missing (ground (arith, e, n)))
            | inr e ↦ rw e (
                or_crash_case P db (engine.exec out.0 (delete_owned (kind_text kind) name)) _
                  (λ e'. c (exec_fails out.0 _ e'))
                  λ out' ran'.
                    or_crash_case P db (engine.commit out'.0) _ (λ e'. c (commit_fails out'.0 e'))
                      λ db' committed.
                        gone out.0 db' (ap (λ k. nat_eq k 0) (sym n) ∙ e) (law.exec_runs db _ ran) (
                          trans_rows (law.commit_keeps out'.0 committed)
                            (law.exec_runs out.0 _ ran')))
          ])

  -- `list`: the rows that are selected are decoded.
  pub list_case :
      {A B : Type 0} (P : Outcome Db B → Type 0) (codec : Codec A) (query : Query)
      (next : List A → Outcome Db B) (items : List A)
      → decode_all codec (select query (law.view db)) ≡ some items
      → (EngineFails engine → P (crashed db))
      → P (next items)
      → P (list engine codec db query next)
  unfolding list or_crash
  list_case P codec query next items decoded c f =
      or_crash_case P db (engine.query db query) _ (λ e. c (query_fails db query e))
        λ rows queried. rw (law.query_selects db query queried, decoded) f
