-- ===== src/Agent/Sync.antt =====
-- `syncAssignments` (internal/agent/sync.go) converges the runtime to what the controller wants, over
-- any runtime whose calls do what they say.
use k3_control_plane.Base.{String, Bool, true, false, ◌||◌, ◌≡◌, List, if◌then◌else◌, In}
use k3_control_plane.Base.Assoc
use k3_control_plane.Base.Assoc.{Assoc, get-put, get-remove}
use k3_control_plane.Api.{Assignment}
use k3_control_plane.Agent.{Executor, Agent, start_one}
use k3_control_plane.Agent.Wanted.{IsReliable, has_id}

module _ {X : Type 0} (runtime : Executor X) (law : IsReliable runtime) where
  -- The agent tracks nothing that the runtime does not hold.
  abbrev pub Tracks : Agent X → Type 0
  Tracks a = (j : String) → Assoc.has j a.tracked ≡ true → law.holds a.executor j ≡ true

  record Stopped (desired : Assoc Assignment) (ids : List String) (a a' : Agent X) : Type 0 where
    tracks : Tracks a'
    gone : (j : String) → In j ids → Assoc.has j desired ≡ false → law.holds a'.executor j ≡ false
    kept :
        (j : String) → Assoc.has j desired ≡ true → law.holds a'.executor j ≡ law.holds a.executor j
    fewer : (j : String) → law.holds a'.executor j ≡ true → law.holds a.executor j ≡ true

  -- What a part of the second loop leaves: the agent's invariant, and the assignments of the part held.
  record Started (es : List (String × Assignment)) (a a' : Agent X) : Type 0 where
    tracks : Tracks a'
    held : (j : String) → law.holds a'.executor j ≡ (has_id j es || law.holds a.executor j)

  after_track : Agent X × Bool → Assignment → Agent X
  after_track (a', new) v = if new then start_one runtime a' v else a'
