-- ===== src/Controller/Marked.antt =====
-- What the marking of lost work (`markLostAssignments` of internal/controller/controller.go) leaves alone.
use k3_control_plane.Base.{
  String, ◌≡◌, refl, ◌∙◌, some, List, [], ◌∷◌, inl, inr, arith, length, Bool-cases, Option-cases,
  not,
}
use k3_control_plane.Base.Assoc
use k3_control_plane.Base.Assoc.{Assoc}
use k3_control_plane.Api.{Time, Assignment}
use k3_control_plane.Api.Phases.{is_active_phase}
use k3_control_plane.Store.{MemoryStore, update_assignment_status}
use k3_control_plane.Store.Keyed.{IsKeyed, update_assignment_status-IsKeyed}
use k3_control_plane.Scheduler.{StringSet}
use k3_control_plane.Store.{apply_status}
use k3_control_plane.Api.Phases.{Phase, lost}
use k3_control_plane.Controller.{lost_message, mark_lost}

-- The marking writes over assignments that there are.
length-put_present :
    {V : Type 0} (k : String) (v w : V) (m : Assoc V)
    → Assoc.get k m ≡ some w
    → length (Assoc.put k v m) ≡ length m
unfolding Assoc.put Assoc.get
length-put_present k v w [] h = cc
length-put_present k v w ((j, x) ∷ m) h = ground (arith, length-put_present k v w m)

-- The store after a status update has the same of all but the assignments, and as many of these.
pub record Marked (s t : MemoryStore) : Type 0 where
  pub keyed : IsKeyed t
  pub services : t.services ≡ s.services
  pub jobs : t.jobs ≡ s.jobs
  pub size : length t.assignments ≡ length s.assignments

update-Marked :
    (s : MemoryStore) (id : String) (phase : Phase) (message : String) (now : Time)
    → IsKeyed s
    → Marked s (update_assignment_status s id phase message now).0
unfolding update_assignment_status
update-Marked s id phase message now h =
    let keyed = update_assignment_status-IsKeyed s id phase message now h in
    elim (Option-cases (Assoc.get id s.assignments)) [
      | inl e ↦
          rw (e, update_assignment_status)
            (record { keyed = h; services = refl; jobs = refl; size = refl })
      | inr (a, e) ↦ elim (Bool-cases (apply_status a phase message now).1) [
        | inl changed ↦
            rw (e, update_assignment_status, changed)
              (record {
                keyed = rw (e, update_assignment_status, changed) at keyed;
                services = refl;
                jobs = refl;
                size = length-put_present id _ a s.assignments e;
              })
        | inr stays ↦
            rw (e, update_assignment_status, stays)
              (record { keyed = h; services = refl; jobs = refl; size = refl })
      ]
    ]

pub mark_lost-Marked :
    (now : Time) (live : StringSet) (xs : List Assignment) (s : MemoryStore)
    → IsKeyed s
    → Marked s (mark_lost now live xs s)
unfolding mark_lost
mark_lost-Marked now live [] s h = record { keyed = h; services = refl; jobs = refl; size = refl }
mark_lost-Marked now live (a ∷ xs) s h = elim (Bool-cases (not (is_active_phase a.phase))) [
  | inl e ↦ rw e (mark_lost-Marked now live xs s h)
  | inr e ↦ elim (Bool-cases (Assoc.has a.node_id live)) [
    | inl d ↦ rw (e, d) (mark_lost-Marked now live xs s h)
    | inr d ↦
        let one = update-Marked s a.id lost (lost_message a.node_id) now h in
        let rest =
          mark_lost-Marked now live xs
            (update_assignment_status s a.id lost (lost_message a.node_id) now).0 one.keyed in
        rw (e, d)
          (record {
            keyed = rest.keyed;
            services = rest.services ∙ one.services;
            jobs = rest.jobs ∙ one.jobs;
            size = rest.size ∙ one.size;
          })
  ]
]
