-- ===== src/Http/Changes.antt =====
-- What the handlers of the agents' API (internal/controller/handlers.go) may change in the store.
use k3_control_plane.Base.{
  String, Bool, true, false, ◌≡◌, ◌≢◌, ◌⊎◌, refl, sym, ap, ◌∙◌, Option, none, some, List, [], ◌∷◌,
  inl, inr, arith, ◌==◌, eq_iff, Option-cases, Bool-cases, if◌then◌else◌, In,
}
use mathlib.Core.Option.{some-injective}
use k3_control_plane.Base.Assoc
use k3_control_plane.Base.Assoc.{get-put}
use k3_control_plane.Api.{Time, Node, Assignment}
use k3_control_plane.Api.Phases.{Phase}
use k3_control_plane.Api.Clone.{clone_node_lem}
use k3_control_plane.Store.{
  MemoryStore, upsert_node, touch_node, apply_status, update_assignment_status,
}
use k3_control_plane.Store.Keyed.{IsKeyed}
use k3_control_plane.Store.Listing.{In-list_node_assignments}
use k3_control_plane.Store.Status.{get-update_assignment_status, update_assignment_status_frame}
use k3_control_plane.Controller.{Controller}
use k3_control_plane.Http.{
  Served, HeartbeatPayload, StatusPayload, Decoded, decoded, malformed, decode_json, with_store,
  http_error, respond,
}
use k3_control_plane.Http.Nodes.{
  register_node, heartbeat, any_id, owns_assignment, is_agent_reportable_phase, report_status,
  touched, reported,
}

-- A change that the node `n` may make: to its own entry among the nodes, and to the assignments on it,
-- to which it may give a phase that agents report.
pub record IsOwnChange (n : String) (s t : MemoryStore) : Type 0 where
  pub services : t.services ≡ s.services
  pub jobs : t.jobs ≡ s.jobs
  pub nodes : (j : String) → j ≢ n → Assoc.get j t.nodes ≡ Assoc.get j s.nodes
  pub assignments :
      (id : String) (a : Assignment)
      → Assoc.get id s.assignments ≡ some a
      → a.node_id ≢ n
      → Assoc.get id t.assignments ≡ some a
  pub no_new : (id : String) → Assoc.get id s.assignments ≡ none → Assoc.get id t.assignments ≡ none
  pub phases :
      (id : String) (a b : Assignment)
      → Assoc.get id s.assignments ≡ some a
      → Assoc.get id t.assignments ≡ some b
      → (b.phase ≡ a.phase) ⊎ (is_agent_reportable_phase b.phase ≡ true)

pub unchanged : (n : String) (s : MemoryStore) → IsOwnChange n s s
unchanged n s = record {
  services = refl;
  jobs = refl;
  nodes = λ j d. refl;
  assignments = λ id a g d. g;
  no_new = λ id g. g;
  phases = λ id a b g g'. inl (ap (λ (x : Assignment). x.phase) (some-injective b a (sym g' ∙ g)));
}

-- A property of both branches of a test.
pub branch :
    {A : Type 0} (P : A → Type 0) (b : Bool) {x y : A}
    → (b ≡ true → P x)
    → (b ≡ false → P y)
    → P (if b then x else y)
branch P true f g = f refl
branch P false f g = g refl

-- A property of what follows a decoded body, and of the refusal of another.
pub after_decode :
    {A : Type 0} (P : Served → Type 0) (d : Decoded A) (next : A → Controller → Served)
    (c : Controller)
    → ((a : A) → P (next a c))
    → ((e : String) → P (http_error e 400 c))
    → P (decode_json d next c)
unfolding decode_json
after_decode P (decoded a) next c f g = f a
after_decode P (malformed e) next c f g = g e

-- The store after a request.
abbrev pub OwnChange : String → Controller → Served → Type 0
OwnChange n c out = IsOwnChange n c.store out.0.store

put_own_node :
    (n : String) (s : MemoryStore) (node : Node)
    → IsOwnChange n s (record s { nodes = Assoc.put n node s.nodes })
put_own_node n s node = record {
  services = refl;
  jobs = refl;
  nodes = λ j d. ground (arith, get-put n j node s.nodes, eq_iff n j);
  assignments = λ id a g d. g;
  no_new = λ id g. g;
  phases = (unchanged n s).phases;
}

pub register_node-OwnChange :
    (now : Time) (n : String) (node : Node) (c : Controller)
    → OwnChange n c (register_node now n node c)
unfolding register_node upsert_node with_store http_error respond
register_node-OwnChange now n node c =
    branch (OwnChange n c) (node.id == n)
      (λ e. rw ((eq_iff node.id n).0 e, clone_node_lem) (put_own_node n c.store _))
      (λ _. unchanged n c.store)

pub heartbeat-OwnChange :
    (now : Time) (n : String) (payload : HeartbeatPayload) (c : Controller)
    → OwnChange n c (heartbeat now n payload c)
unfolding heartbeat touch_node with_store http_error touched respond
heartbeat-OwnChange now n payload c =
    branch (OwnChange n c) (payload.id == n)
      (λ e. rw ((eq_iff payload.id n).0 e) (elim (Option-cases (Assoc.get n c.store.nodes)) [
        | inl g ↦ rw (g, touch_node) (unchanged n c.store)
        | inr (node, g) ↦ rw (g, touch_node) (put_own_node n c.store _)
      ]))
      (λ _. unchanged n c.store)

any_id-In :
    (id : String) (list : List Assignment)
    → any_id id list ≡ true
    → (a : Assignment) × In a list × (a.id ≡ id)
unfolding any_id
any_id-In id [] h = cc
any_id-In id (a ∷ list) h = elim (Bool-cases (a.id == id)) [
  | inl e ↦ (a, inl refl, (eq_iff a.id id).0 e)
  | inr e ↦ let (b, i, same) = any_id-In id list (ground arith) in (b, inr i, same)
]

-- The node of a report owns the assignment that it names.
pub owned_assignment :
    (s : MemoryStore) (n id : String)
    → IsKeyed s
    → owns_assignment s n id ≡ true
    → (a : Assignment) × (Assoc.get id s.assignments ≡ some a) × (a.node_id ≡ n)
unfolding owns_assignment
owned_assignment s n id h o =
    let (a, i, same) = any_id-In id _ o in
    let (g, on) = (In-list_node_assignments s n a h).0 i in (a, rw same at g, on)

phase-apply_status :
    (a : Assignment) (phase : Phase) (message : String) (now : Time)
    → is_agent_reportable_phase phase ≡ true
    → ((apply_status a phase message now).0.phase ≡ a.phase)
      ⊎ (is_agent_reportable_phase (apply_status a phase message now).0.phase ≡ true)
unfolding apply_status
phase-apply_status a phase message now h = ground arith

update_own :
    (s : MemoryStore) (n id : String) (phase : Phase) (message : String) (now : Time)
    → IsKeyed s
    → owns_assignment s n id ≡ true
    → is_agent_reportable_phase phase ≡ true
    → IsOwnChange n s (update_assignment_status s id phase message now).0
update_own s n id phase message now h o r =
    let (owned, g, on) = owned_assignment s n id h o in
    let t = (update_assignment_status s id phase message now).0 in
    let (nodes, services, jobs) = update_assignment_status_frame s id phase message now in
    let written : (j : String)
        → Assoc.get j t.assignments ≡ (
            if id == j
            then some (apply_status owned phase message now).0
            else Assoc.get j s.assignments) =
      λ j. get-update_assignment_status s id j phase message now g in
    record {
      services = services;
      jobs = jobs;
      nodes = λ j d. ap (Assoc.get j) nodes;
      assignments =
          λ j a g' d. ground (arith, written j, eq_iff id j, g, on, some-injective owned a);
      no_new = λ j g'. ground (arith, written j, eq_iff id j, g);
      phases = λ j a b g' g''. elim (Bool-cases (id == j)) [
        | inl e ↦
            let same = (eq_iff id j).0 e in
            let before : owned ≡ a =
              some-injective owned a (sym g ∙ (ap (λ k. Assoc.get k s.assignments) same ∙ g')) in
            let after : b ≡ (apply_status owned phase message now).0 =
              let w = written j in some-injective b _ (sym g'' ∙ (rw e at w)) in
            rw (after, ← before) (phase-apply_status owned phase message now r)
        | inr e ↦
            let w = written j in
            inl
              (ap (λ (x : Assignment). x.phase) (some-injective b a (sym g'' ∙ ((rw e at w) ∙ g'))))
      ];
    }

with_report :
    (n : String) (c : Controller) (out : MemoryStore × Option Assignment)
    → IsOwnChange n c.store out.0
    → OwnChange n c (reported c out)
unfolding reported with_store http_error respond
with_report n c (s, none) h = h
with_report n c (s, some a) h = h

pub report_status-OwnChange :
    (now : Time) (n id : String) (payload : StatusPayload) (c : Controller)
    → IsKeyed c.store
    → OwnChange n c (report_status now n id payload c)
unfolding report_status http_error
report_status-OwnChange now n id payload c h =
    branch (OwnChange n c) (is_agent_reportable_phase payload.phase)
      (λ r.
        branch (OwnChange n c) (owns_assignment c.store n id)
          (λ o. with_report n c _ (update_own c.store n id payload.phase payload.message now h o r))
          (λ _. unchanged n c.store))
      (λ _. unchanged n c.store)
