-- ===== src/Store/Keyed.antt =====
-- The invariant of `MemoryStore` (internal/store): in each map every key stands once and is the ID
-- or the name of the object stored under it.
use k3_control_plane.Base.{
  String, ◌≡◌, refl, List, [], ◌∷◌, Bool-cases, Option-cases, inl, inr, arith, ◌∙◌,
}
use k3_control_plane.Base.Assoc
use k3_control_plane.Base.Assoc.{Assoc, IsKeyed-put, IsKeyed-remove, key-eq_of_get}
use k3_control_plane.Api.{Time, Node, Service, ServiceStatus, Job, JobStatus, Assignment}
use k3_control_plane.Api.Phases.{Phase, Kind}
use k3_control_plane.Api.Clone.{
  clone_node_lem, clone_service_lem, clone_job_lem, clone_assignment_lem,
}
use k3_control_plane.Store
use k3_control_plane.Store.{MemoryStore, new_memory_store, delete_owned, apply_status, is_owned_by}

pub record IsKeyed (s : MemoryStore) : Type 0 where
  pub nodes : Assoc.IsKeyed (λ (n : Node). n.id) s.nodes
  pub services : Assoc.IsKeyed (λ (v : Service). v.name) s.services
  pub jobs : Assoc.IsKeyed (λ (j : Job). j.name) s.jobs
  pub assignments : Assoc.IsKeyed (λ (a : Assignment). a.id) s.assignments

pub new-IsKeyed : IsKeyed new_memory_store
new-IsKeyed = record { nodes = tt; services = tt; jobs = tt; assignments = tt }

pub upsert_node-IsKeyed : (s : MemoryStore) (n : Node) → IsKeyed s → IsKeyed (Store.upsert_node s n)
unfolding Store.upsert_node
upsert_node-IsKeyed s n h = record {
  nodes = rw clone_node_lem (IsKeyed-put (λ (n : Node). n.id) n.id n s.nodes refl h.nodes);
  services = h.services;
  jobs = h.jobs;
  assignments = h.assignments;
}

pub touch_node-IsKeyed :
    (s : MemoryStore) (id : String) (now : Time) → IsKeyed s → IsKeyed (Store.touch_node s id now).0
unfolding Store.touch_node
touch_node-IsKeyed s id now h = elim (Option-cases (Assoc.get id s.nodes)) [
  | inl e ↦ rw (e, Store.touch_node) h
  | inr (node, e) ↦
      rw (e, Store.touch_node)
        (record {
          nodes =
              IsKeyed-put (λ (n : Node). n.id) id _ s.nodes
                (key-eq_of_get (λ (n : Node). n.id) id node s.nodes h.nodes e) h.nodes;
          services = h.services;
          jobs = h.jobs;
          assignments = h.assignments;
        })
]

pub upsert_service-IsKeyed :
    (s : MemoryStore) (v : Service) → IsKeyed s → IsKeyed (Store.upsert_service s v)
unfolding Store.upsert_service
upsert_service-IsKeyed s v h = record {
  nodes = h.nodes;
  services =
      rw clone_service_lem
        (IsKeyed-put (λ (v : Service). v.name) v.name v s.services refl h.services);
  jobs = h.jobs;
  assignments = h.assignments;
}

pub update_service_status-IsKeyed :
    (s : MemoryStore) (name : String) (status : ServiceStatus)
    → IsKeyed s
    → IsKeyed (Store.update_service_status s name status).0
unfolding Store.update_service_status
update_service_status-IsKeyed s name status h = elim (Option-cases (Assoc.get name s.services)) [
  | inl e ↦ rw (e, Store.update_service_status) h
  | inr (v, e) ↦
      rw (e, Store.update_service_status)
        (record {
          nodes = h.nodes;
          services =
              IsKeyed-put (λ (v : Service). v.name) name _ s.services
                (key-eq_of_get (λ (v : Service). v.name) name v s.services h.services e) h.services;
          jobs = h.jobs;
          assignments = h.assignments;
        })
]

pub upsert_job-IsKeyed : (s : MemoryStore) (j : Job) → IsKeyed s → IsKeyed (Store.upsert_job s j)
unfolding Store.upsert_job
upsert_job-IsKeyed s j h = record {
  nodes = h.nodes;
  services = h.services;
  jobs = rw clone_job_lem (IsKeyed-put (λ (j : Job). j.name) j.name j s.jobs refl h.jobs);
  assignments = h.assignments;
}

pub update_job_status-IsKeyed :
    (s : MemoryStore) (name : String) (status : JobStatus)
    → IsKeyed s
    → IsKeyed (Store.update_job_status s name status).0
unfolding Store.update_job_status
update_job_status-IsKeyed s name status h = elim (Option-cases (Assoc.get name s.jobs)) [
  | inl e ↦ rw (e, Store.update_job_status) h
  | inr (j, e) ↦
      rw (e, Store.update_job_status)
        (record {
          nodes = h.nodes;
          services = h.services;
          jobs =
              IsKeyed-put (λ (j : Job). j.name) name _ s.jobs
                (key-eq_of_get (λ (j : Job). j.name) name j s.jobs h.jobs e) h.jobs;
          assignments = h.assignments;
        })
]

delete_owned-IsKeyed :
    (kind : Kind) (name : String) (es : List (String × Assignment)) (m : Assoc Assignment)
    → Assoc.IsKeyed (λ (a : Assignment). a.id) m
    → Assoc.IsKeyed (λ (a : Assignment). a.id) (delete_owned kind name es m)
unfolding delete_owned
delete_owned-IsKeyed kind name [] m h = h
delete_owned-IsKeyed kind name ((id, a) ∷ rest) m h = elim (Bool-cases (is_owned_by kind name a)) [
  | inl e ↦
      rw e
        (delete_owned-IsKeyed kind name rest _ (IsKeyed-remove (λ (a : Assignment). a.id) id m h))
  | inr e ↦ rw e (delete_owned-IsKeyed kind name rest m h)
]

pub delete_service-IsKeyed :
    (s : MemoryStore) (name : String) → IsKeyed s → IsKeyed (Store.delete_service s name).0
unfolding Store.delete_service
delete_service-IsKeyed s name h = elim (Option-cases (Assoc.get name s.services)) [
  | inl e ↦ rw (e, Store.delete_service) h
  | inr (v, e) ↦
      rw (e, Store.delete_service)
        (record {
          nodes = h.nodes;
          services = IsKeyed-remove (λ (v : Service). v.name) name s.services h.services;
          jobs = h.jobs;
          assignments = delete_owned-IsKeyed _ name s.assignments s.assignments h.assignments;
        })
]

pub delete_job-IsKeyed :
    (s : MemoryStore) (name : String) → IsKeyed s → IsKeyed (Store.delete_job s name).0
unfolding Store.delete_job
delete_job-IsKeyed s name h = elim (Option-cases (Assoc.get name s.jobs)) [
  | inl e ↦ rw (e, Store.delete_job) h
  | inr (j, e) ↦
      rw (e, Store.delete_job)
        (record {
          nodes = h.nodes;
          services = h.services;
          jobs = IsKeyed-remove (λ (j : Job). j.name) name s.jobs h.jobs;
          assignments = delete_owned-IsKeyed _ name s.assignments s.assignments h.assignments;
        })
]

-- A write to the assignments alone.
with_assignments-IsKeyed :
    (s : MemoryStore) (m : Assoc Assignment)
    → Assoc.IsKeyed (λ (a : Assignment). a.id) m
    → IsKeyed s
    → IsKeyed (record s { assignments = m })
with_assignments-IsKeyed s m k h = record {
  nodes = h.nodes;
  services = h.services;
  jobs = h.jobs;
  assignments = k;
}

pub save_assignment-IsKeyed :
    (s : MemoryStore) (a : Assignment) → IsKeyed s → IsKeyed (Store.save_assignment s a)
unfolding Store.save_assignment
save_assignment-IsKeyed s a h = rw clone_assignment_lem (
    with_assignments-IsKeyed s _
      (IsKeyed-put (λ (a : Assignment). a.id) a.id a s.assignments refl h.assignments) h)

pub delete_assignment-IsKeyed :
    (s : MemoryStore) (id : String) → IsKeyed s → IsKeyed (Store.delete_assignment s id).0
unfolding Store.delete_assignment
delete_assignment-IsKeyed s id h = elim (Option-cases (Assoc.get id s.assignments)) [
  | inl e ↦ rw (e, Store.delete_assignment) h
  | inr (a, e) ↦
      rw (e, Store.delete_assignment)
        (with_assignments-IsKeyed s _
          (IsKeyed-remove (λ (a : Assignment). a.id) id s.assignments h.assignments) h)
]

pub id-apply_status :
    (a : Assignment) (phase : Phase) (message : String) (now : Time)
    → (apply_status a phase message now).0.id ≡ a.id
unfolding apply_status
id-apply_status a phase message now = ground arith

pub update_assignment_status-IsKeyed :
    (s : MemoryStore) (id : String) (phase : Phase) (message : String) (now : Time)
    → IsKeyed s
    → IsKeyed (Store.update_assignment_status s id phase message now).0
unfolding Store.update_assignment_status
update_assignment_status-IsKeyed s id phase message now h =
    elim (Option-cases (Assoc.get id s.assignments)) [
      | inl e ↦ rw (e, Store.update_assignment_status) h
      | inr (a, e) ↦
          let found = key-eq_of_get (λ (a : Assignment). a.id) id a s.assignments h.assignments e in
          let a' = (apply_status a phase message now).0 in
          let written =
            with_assignments-IsKeyed s _
              (IsKeyed-put (λ (a : Assignment). a.id) id a' s.assignments
                (id-apply_status a phase message now ∙ found) h.assignments)
              h in
          elim (Bool-cases (apply_status a phase message now).1) [
            | inl c ↦ rw (e, Store.update_assignment_status, c) written
            | inr c ↦ rw (e, Store.update_assignment_status, c) h
          ]
    ]
