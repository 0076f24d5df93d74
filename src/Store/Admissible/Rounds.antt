-- ===== src/Store/Admissible/Rounds.antt =====
-- The writes of the controller's rounds (internal/controller) to `MemoryStore` keep it admissible.
use k3_control_plane.Base.{String, Option-cases, inl, inr}
use k3_control_plane.Base.Assoc
use k3_control_plane.Base.Every.{Every-put, Every-remove}
use k3_control_plane.Api.{ServiceStatus, JobStatus, Assignment}
use k3_control_plane.Api.Clone.{clone_assignment_lem}
use k3_control_plane.Store
use k3_control_plane.Store.{MemoryStore}
use k3_control_plane.Store.Keyed.{
  save_assignment-IsKeyed, delete_assignment-IsKeyed, update_service_status-IsKeyed,
  update_job_status-IsKeyed,
}
use k3_control_plane.Store.Admissible.{IsAdmissible, IsService, IsJob, IsTimed}

pub save_assignment-IsAdmissible :
    (s : MemoryStore) (a : Assignment)
    → IsTimed a
    → IsAdmissible s
    → IsAdmissible (Store.save_assignment s a)
unfolding Store.save_assignment
save_assignment-IsAdmissible s a p h = record {
  keyed = save_assignment-IsKeyed s a h.keyed;
  nodes = h.nodes;
  services = h.services;
  jobs = h.jobs;
  assignments = rw clone_assignment_lem (Every-put IsTimed a.id a s.assignments p h.assignments);
}

pub delete_assignment-IsAdmissible :
    (s : MemoryStore) (id : String) → IsAdmissible s → IsAdmissible (Store.delete_assignment s id).0
unfolding Store.delete_assignment
delete_assignment-IsAdmissible s id h =
    let keyed = delete_assignment-IsKeyed s id h.keyed in
    elim (Option-cases (Assoc.get id s.assignments)) [
      | inl e ↦ rw (e, Store.delete_assignment) h
      | inr (a, e) ↦
          rw (e, Store.delete_assignment)
            (record {
              keyed = rw (e, Store.delete_assignment) at keyed;
              nodes = h.nodes;
              services = h.services;
              jobs = h.jobs;
              assignments = Every-remove IsTimed id s.assignments h.assignments;
            })
    ]

pub update_service_status-IsAdmissible :
    (s : MemoryStore) (name : String) (status : ServiceStatus)
    → IsAdmissible s
    → IsAdmissible (Store.update_service_status s name status).0
unfolding Store.update_service_status
update_service_status-IsAdmissible s name status h =
    let keyed = update_service_status-IsKeyed s name status h.keyed in
    elim (Option-cases (Assoc.get name s.services)) [
      | inl e ↦ rw (e, Store.update_service_status) h
      | inr (v, e) ↦
          rw (e, Store.update_service_status)
            (record {
              keyed = rw (e, Store.update_service_status) at keyed;
              nodes = h.nodes;
              services = Every-put IsService name _ s.services (h.services name v e) h.services;
              jobs = h.jobs;
              assignments = h.assignments;
            })
    ]

pub update_job_status-IsAdmissible :
    (s : MemoryStore) (name : String) (status : JobStatus)
    → IsAdmissible s
    → IsAdmissible (Store.update_job_status s name status).0
unfolding Store.update_job_status
update_job_status-IsAdmissible s name status h =
    let keyed = update_job_status-IsKeyed s name status h.keyed in
    elim (Option-cases (Assoc.get name s.jobs)) [
      | inl e ↦ rw (e, Store.update_job_status) h
      | inr (j, e) ↦
          rw (e, Store.update_job_status)
            (record {
              keyed = rw (e, Store.update_job_status) at keyed;
              nodes = h.nodes;
              services = h.services;
              jobs = Every-put IsJob name _ s.jobs (h.jobs name j e) h.jobs;
              assignments = h.assignments;
            })
    ]
