-- ===== src/Controller/Lost.antt =====
-- `markLostAssignments` (internal/controller/controller.go).
use mathlib.Core.Option
use k3_control_plane.Base.{
  String, Bool, true, false, ◌≡◌, refl, ◌∙◌, sym, ap, ◌⊎◌, inl, inr, ◌==◌, eq_iff, ◌&&◌, not,
  Option, some, List, [], ◌∷◌, arith, Bool-cases, Option-cases, if◌then◌else◌, In,
}
use k3_control_plane.Base.Assoc
use k3_control_plane.Base.Assoc.{Assoc, key-eq_of_get}
use k3_control_plane.Api.{Time, Assignment}
use k3_control_plane.Api.Phases.{lost, is_active_phase, is_terminal_phase, phase_eq}
use k3_control_plane.Store.{MemoryStore, list_assignments, update_assignment_status, apply_status}
use k3_control_plane.Store.Keyed.{IsKeyed}
use k3_control_plane.Store.Listing.{In-list_assignments}
use k3_control_plane.Store.Status.{get-update_assignment_status, update_terminal}
use k3_control_plane.Scheduler.{StringSet}
use k3_control_plane.Controller.{
  Controller, live_set, lost_message, mark_lost, mark_lost_assignments,
}

module _ (now : Time) (live : StringSet) where
  -- What the marking makes of one assignment: active work on a node that is not live is lost.
  unfoldable pub marked : Assignment → Assignment
  marked a =
      if is_active_phase a.phase && not (Assoc.has a.node_id live)
      then (apply_status a lost (lost_message a.node_id) now).0
      else a

  phase-marked :
      (a : Assignment)
      → is_active_phase (marked a).phase ≡ true
      → Assoc.has (marked a).node_id live ≡ true
  unfolding marked apply_status is_active_phase is_terminal_phase phase_eq
  phase-marked a h = ground arith

  marked_idem : (a : Assignment) → marked (marked a) ≡ marked a
  unfolding marked apply_status is_active_phase is_terminal_phase phase_eq
  marked_idem a = ground arith

  id-marked : (a : Assignment) → (marked a).id ≡ a.id
  unfolding marked apply_status
  id-marked a = ground arith

  -- The step of the loop for one assignment of the list.
  abbrev mark_one : Assignment → MemoryStore → MemoryStore
  mark_one a s =
      if not (is_active_phase a.phase)
      then s
      else if Assoc.has a.node_id live
      then s
      else (update_assignment_status s a.id lost (lost_message a.node_id) now).0

  -- The loop meets stores that hold each assignment as it was at first or as it is once marked.
  abbrev Between : Assoc Assignment → MemoryStore → Type 0
  Between m s =
      (j : String)
      → (Assoc.get j s.assignments ≡ Assoc.get j m)
        ⊎ (Assoc.get j s.assignments ≡ Option.map marked (Assoc.get j m))

  -- What is stored under the ID of a listed assignment.
  listed_now :
      (m : Assoc Assignment) (a : Assignment) (s : MemoryStore)
      → Assoc.get a.id m ≡ some a
      → Between m s
      → (Assoc.get a.id s.assignments ≡ some a) ⊎ (Assoc.get a.id s.assignments ≡ some (marked a))
  listed_now m a s g b = elim (b a.id) [
    | inl e ↦ inl (e ∙ g)
    | inr e ↦ inr (e ∙ ap (Option.map marked) g)
  ]

  abbrev is_abandoned : Assignment → Bool
  is_abandoned a = is_active_phase a.phase && not (Assoc.has a.node_id live)

  mark_one_abandoned :
      (a : Assignment) (s : MemoryStore)
      → is_abandoned a ≡ true
      → (mark_one a s ≡ (update_assignment_status s a.id lost (lost_message a.node_id) now).0)
        × (marked a ≡ (apply_status a lost (lost_message a.node_id) now).0)
        × (is_terminal_phase (marked a).phase ≡ true)
  unfolding marked apply_status is_active_phase is_terminal_phase phase_eq
  mark_one_abandoned a s h = (ground arith, ground arith, ground arith)

  mark_one_kept :
      (a : Assignment) (s : MemoryStore)
      → is_abandoned a ≡ false
      → (mark_one a s ≡ s) × (marked a ≡ a)
  unfolding marked
  mark_one_kept a s h = (ground arith, ground arith)

  get-mark_one_self :
      (m : Assoc Assignment) (a : Assignment) (s : MemoryStore)
      → Assoc.get a.id m ≡ some a
      → Between m s
      → Assoc.get a.id (mark_one a s).assignments ≡ some (marked a)
  get-mark_one_self m a s g b = elim (Bool-cases (is_abandoned a)) [
    | inl h ↦
        let (run, result, final) = mark_one_abandoned a s h in
        elim (listed_now m a s g b) [
          | inl e ↦
              ap (λ (t : MemoryStore). Assoc.get a.id t.assignments) run
              ∙ get-update_assignment_status s a.id a.id lost (lost_message a.node_id) now e
              ∙ ground (arith, eq_iff a.id a.id, result)
          | inr e ↦
              ap (λ (t : MemoryStore). Assoc.get a.id t.assignments)
                (run
                  ∙ ap (λ (r : MemoryStore × Option Assignment). r.0)
                      (update_terminal s a.id lost (lost_message a.node_id) now e final))
              ∙ e
        ]
    | inr h ↦
        let (run, result) = mark_one_kept a s h in
        elim (listed_now m a s g b) [
          | inl e ↦
              ap (λ (t : MemoryStore). Assoc.get a.id t.assignments) run
              ∙ e
              ∙ ap (λ (x : Assignment). some x) (sym result)
          | inr e ↦ ap (λ (t : MemoryStore). Assoc.get a.id t.assignments) run ∙ e
        ]
  ]

  get-mark_one_other :
      (m : Assoc Assignment) (a : Assignment) (s : MemoryStore) (j : String)
      → Assoc.get a.id m ≡ some a
      → Between m s
      → (a.id == j) ≡ false
      → Assoc.get j (mark_one a s).assignments ≡ Assoc.get j s.assignments
  get-mark_one_other m a s j g b other = elim (Bool-cases (is_abandoned a)) [
    | inl h ↦
        ap (λ (t : MemoryStore). Assoc.get j t.assignments) (mark_one_abandoned a s h).0
        ∙ elim (listed_now m a s g b) [
          | inl e ↦
              get-update_assignment_status s a.id j lost (lost_message a.node_id) now e
              ∙ ground (arith, other)
          | inr e ↦
              get-update_assignment_status s a.id j lost (lost_message a.node_id) now e
              ∙ ground (arith, other)
        ]
    | inr h ↦ ap (λ (t : MemoryStore). Assoc.get j t.assignments) (mark_one_kept a s h).0
  ]

  mark_one-Between :
      (m : Assoc Assignment) (a : Assignment) (s : MemoryStore)
      → Assoc.get a.id m ≡ some a
      → Between m s
      → Between m (mark_one a s)
  mark_one-Between m a s g b j = elim (Bool-cases (a.id == j)) [
    | inl same ↦
        let e : a.id ≡ j = (eq_iff a.id j).0 same in
        inr (
          ap (λ (x : String). Assoc.get x (mark_one a s).assignments) (sym e)
          ∙ get-mark_one_self m a s g b
          ∙ ap (Option.map marked) (sym g)
          ∙ ap (λ (x : String). Option.map marked (Assoc.get x m)) e)
    | inr other ↦ rw (get-mark_one_other m a s j g b other) (b j)
  ]

  -- Once marked, an entry stays so.
  mark_one_stays :
      (m : Assoc Assignment) (a : Assignment) (s : MemoryStore) (j : String)
      → Assoc.get a.id m ≡ some a
      → Between m s
      → Assoc.get j s.assignments ≡ Option.map marked (Assoc.get j m)
      → Assoc.get j (mark_one a s).assignments ≡ Option.map marked (Assoc.get j m)
  mark_one_stays m a s j g b done = elim (Bool-cases (a.id == j)) [
    | inl same ↦
        let e : a.id ≡ j = (eq_iff a.id j).0 same in
        ap (λ (x : String). Assoc.get x (mark_one a s).assignments) (sym e)
        ∙ get-mark_one_self m a s g b
        ∙ ap (Option.map marked) (sym g)
        ∙ ap (λ (x : String). Option.map marked (Assoc.get x m)) e
    | inr other ↦ get-mark_one_other m a s j g b other ∙ done
  ]

  mark_lost_stays :
      (m : Assoc Assignment) (xs : List Assignment) (s : MemoryStore) (j : String)
      → ((a : Assignment) → In a xs → Assoc.get a.id m ≡ some a)
      → Between m s
      → Assoc.get j s.assignments ≡ Option.map marked (Assoc.get j m)
      → Assoc.get j (mark_lost now live xs s).assignments ≡ Option.map marked (Assoc.get j m)
  unfolding mark_lost
  mark_lost_stays m [] s j listed b done = done
  mark_lost_stays m (a ∷ rest) s j listed b done =
      let g = listed a (inl refl) in
      mark_lost_stays m rest (mark_one a s) j (λ x i. listed x (inr i)) (mark_one-Between m a s g b)
        (mark_one_stays m a s j g b done)

  mark_lost_listed :
      (m : Assoc Assignment) (xs : List Assignment) (s : MemoryStore) (a : Assignment)
      → ((x : Assignment) → In x xs → Assoc.get x.id m ≡ some x)
      → Between m s
      → In a xs
      → Assoc.get a.id (mark_lost now live xs s).assignments ≡ some (marked a)
  unfolding mark_lost
  mark_lost_listed m [] s a listed b i = absurd i
  mark_lost_listed m (x ∷ rest) s a listed b (inl e) =
      let g : Assoc.get a.id m ≡ some a = rw e (listed x (inl refl)) in
      let gx = listed x (inl refl) in
      let done : Assoc.get a.id (mark_one x s).assignments ≡ Option.map marked (Assoc.get a.id m) =
        rw (g, e) (get-mark_one_self m x s gx b) in
      mark_lost_stays m rest (mark_one x s) a.id (λ y i. listed y (inr i))
        (mark_one-Between m x s gx b) done
      ∙ ap (Option.map marked) g
  mark_lost_listed m (x ∷ rest) s a listed b (inr i) =
      mark_lost_listed m rest (mark_one x s) a (λ y k. listed y (inr k))
        (mark_one-Between m x s (listed x (inl refl)) b) i

  mark_lost_absent :
      (m : Assoc Assignment) (xs : List Assignment) (s : MemoryStore)
      → ((x : Assignment) → In x xs → Assoc.get x.id m ≡ some x)
      → Between m s
      → Between m (mark_lost now live xs s)
  unfolding mark_lost
  mark_lost_absent m [] s listed b = b
  mark_lost_absent m (x ∷ rest) s listed b =
      mark_lost_absent m rest (mark_one x s) (λ y k. listed y (inr k))
        (mark_one-Between m x s (listed x (inl refl)) b)

-- What the marking leaves under every ID: active work on a node that is not live is lost, and
-- every other assignment is as it was, if the store is well-formed.
pub get-mark_lost_assignments :
    (now : Time) (c : Controller) (j : String)
    → IsKeyed c.store
    → Assoc.get j (mark_lost_assignments now c).store.assignments
      ≡ Option.map (marked now (live_set now c)) (Assoc.get j c.store.assignments)
unfolding mark_lost_assignments
get-mark_lost_assignments now c j h =
    let m = c.store.assignments in
    let live = live_set now c in
    let listed : (x : Assignment) → In x (list_assignments c.store) → Assoc.get x.id m ≡ some x =
      λ x. (In-list_assignments c.store x h).0 in
    elim (Option-cases (Assoc.get j m)) [
      | inl absent ↦
          elim (mark_lost_absent now live m (list_assignments c.store) c.store listed
            (λ k. inl refl) j) [ inl e ↦ e ∙ rw absent | inr e ↦ e ]
      | inr (a, g) ↦
          let id_eq : a.id ≡ j = key-eq_of_get (λ (x : Assignment). x.id) j a m h.assignments g in
          let g' = ap (λ (x : String). Assoc.get x m) id_eq ∙ g in
          ap
            (λ (x : String).
              Assoc.get x (mark_lost now live (list_assignments c.store) c.store).assignments)
            (sym id_eq)
          ∙ mark_lost_listed now live m (list_assignments c.store) c.store a listed (λ k. inl refl)
              ((In-list_assignments c.store a h).1 g')
          ∙ sym (ap (Option.map (marked now live)) g)
    ]

-- After the marking, work that is still active is on a live node, if the store is well-formed.
pub mark_lost_assignments_live :
    (now : Time) (c : Controller) (j : String) {a : Assignment}
    → IsKeyed c.store
    → Assoc.get j (mark_lost_assignments now c).store.assignments ≡ some a
    → is_active_phase a.phase ≡ true
    → Assoc.has a.node_id (live_set now c) ≡ true
mark_lost_assignments_live now c j {a} h g act =
    let (b, stored, e) =
      (Option.map-eq-some_iff (marked now (live_set now c)) (Assoc.get j c.store.assignments)).0
        (sym (get-mark_lost_assignments now c j h) ∙ g) in
    rw (← e) (phase-marked now (live_set now c) b (rw (← e) at act))
