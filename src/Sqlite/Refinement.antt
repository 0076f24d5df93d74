-- ===== src/Sqlite/Refinement.antt =====
-- When a method of `SQLiteStore` (internal/store/sqlite.go) does what a method of `MemoryStore` does.
use mathlib.Core.Option.{some-injective}
use k3_control_plane.Base.{String, ◌≡◌, refl, sym, ◌∙◌, subst, Option, none, some, inl, inr, ◌⊎◌}
use k3_control_plane.Store.{MemoryStore}
use k3_control_plane.Sqlite.{Engine, Codec, Codecs, Outcome, returned, crashed}
use k3_control_plane.Sqlite.Represents.{IsSqlite, Both, IsDecoded, Represents}
use k3_control_plane.Sqlite.Cases.{EngineFails, EncodeFails}

-- A call that a method makes fails: the engine's, or the encoding of an object.
pub data CallFails {Db : Type 0} (engine : Engine Db) (json : Codecs) : Type 0 where
  engine_fails : EngineFails engine → CallFails engine json
  node_fails : EncodeFails json.node → CallFails engine json
  service_fails : EncodeFails json.service → CallFails engine json
  job_fails : EncodeFails json.job → CallFails engine json
  assignment_fails : EncodeFails json.assignment → CallFails engine json

-- Where a method of the abstract store leads from `s` to `s'` with the answer `a`: the method of the
-- database answers the same and represents `s'`, or a call failed, and the crash leaves a database that
-- still represents `s`.
abbrev pub Refines :
    {Db A : Type 0} {engine : Engine Db}
    → IsSqlite engine
    → Codecs
    → MemoryStore
    → MemoryStore
    → A
    → Outcome Db A
    → Type 0
Refines law json s s' a (returned db b) = Represents json (law.view db) s' × (b ≡ a)
Refines {engine = engine} law json s s' a (crashed db) =
    Represents json (law.view db) s × CallFails engine json

module _ {V A : Type 0} (R : V → A → Type 0) where
  pub none_of-Both : (o : Option V) (p : Option A) → Both R o p → o ≡ none → p ≡ none
  none_of-Both none none h e = refl
  none_of-Both none (some a) h e = absurd h
  none_of-Both (some v) none h e = refl
  none_of-Both (some v) (some a) h e = cc

  pub some_of-Both :
      (o : Option V) (p : Option A) (v : V)
      → Both R o p
      → o ≡ some v
      → (a : A) × (p ≡ some a) × R v a
  some_of-Both none none v h e = cc
  some_of-Both none (some a) v h e = absurd h
  some_of-Both (some w) none v h e = absurd h
  some_of-Both (some w) (some a) v h e = (a, refl, subst (λ x. R x a) (some-injective w v e) h)

-- The row of an object that is decoded is the row of the stored one.
pub decoded_same :
    {A : Type 0} (codec : Codec A) (text : String) (item : A) (o : Option String) (p : Option A)
    → Both (IsDecoded codec) o p
    → o ≡ some text
    → codec.decode text ≡ some item
    → p ≡ some item
decoded_same codec text item o p h e d =
    let (a, found', r) = some_of-Both (IsDecoded codec) o p text h e in found' ∙ sym r ∙ d

-- A row that stands for an object can be decoded.
pub row_readable :
    {A : Type 0} (codec : Codec A) (o : Option String) (p : Option A) (text : String)
    → Both (IsDecoded codec) o p
    → o ≡ some text
    → (a : A) × (codec.decode text ≡ some a)
row_readable codec o p text h e =
    let (a, _, r) = some_of-Both (IsDecoded codec) o p text h e in (a, r)

module _ {Db : Type 0} (engine : Engine Db) (json : Codecs) where
  -- A crash leaves what there was.
  pub fails :
      {A X : Type 0} (codec : Codec A)
      → (EncodeFails codec → CallFails engine json)
      → X
      → EngineFails engine ⊎ EncodeFails codec
      → X × CallFails engine json
  fails codec encode_fails r (inl f) = (r, engine_fails f)
  fails codec encode_fails r (inr f) = (r, encode_fails f)
