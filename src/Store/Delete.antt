-- ===== src/Store/Delete.antt =====
-- `DeleteService` and `DeleteJob` (internal/store/services.go, jobs.go) take the assignments of
-- the owner with them, and no others.
use k3_control_plane.Base.{
  String, Bool, true, false, ◌≡◌, refl, Option, none, some, List, [], ◌∷◌, Bool-cases, inl, inr,
  arith, ◌==◌, eq_iff, if◌then◌else◌, ◌&&◌, ◌||◌, ◌∙◌,
}
use k3_control_plane.Base.Assoc
use k3_control_plane.Base.Assoc.{Assoc, get-remove}
use k3_control_plane.Api.{Service, Job, Assignment}
use k3_control_plane.Api.Phases.{Kind, service, job}
use k3_control_plane.Store.{MemoryStore, is_owned_by, delete_owned, delete_service, delete_job}
use k3_control_plane.Store.Keyed.{IsKeyed}

-- Whether the loop meets an owned entry with the key `j`.
doomed : Kind → String → String → List (String × Assignment) → Bool
doomed kind name j [] = false
doomed kind name j ((id, a) ∷ rest) =
    let later = doomed kind name j rest in (id == j && is_owned_by kind name a) || later

get-delete_owned_loop :
    (kind : Kind) (name j : String) (es : List (String × Assignment)) (m : Assoc Assignment)
    → Assoc.get j (delete_owned kind name es m)
      ≡ (if doomed kind name j es then none else Assoc.get j m)
unfolding delete_owned doomed
get-delete_owned_loop kind name j [] m = refl
get-delete_owned_loop kind name j ((id, a) ∷ rest) m = elim (Bool-cases (is_owned_by kind name a)) [
  | inl e ↦
      rw (e, get-delete_owned_loop kind name j rest (Assoc.remove id m))
        (ground (arith, get-remove id j m, eq_iff id j))
  | inr e ↦ rw (e, get-delete_owned_loop kind name j rest m) (ground (arith, eq_iff id j))
]

-- What is left of an entry once the loop has ended.
abbrev pub unless_owned : Kind → String → Option Assignment → Option Assignment
unless_owned kind name none = none
unless_owned kind name (some a) = if is_owned_by kind name a then none else some a

not_doomed :
    (kind : Kind) (name j : String) (m : Assoc Assignment)
    → Assoc.get j m ≡ none
    → doomed kind name j m ≡ false
unfolding doomed Assoc.get
not_doomed kind name j [] g = refl
not_doomed kind name j ((id, a) ∷ rest) g = ground (arith, not_doomed kind name j rest)

get-delete_owned :
    (kind : Kind) (name j : String) (m : Assoc Assignment)
    → Assoc.IsKeyed (λ (a : Assignment). a.id) m
    → (if doomed kind name j m then none else Assoc.get j m)
      ≡ unless_owned kind name (Assoc.get j m)
unfolding doomed Assoc.get
get-delete_owned kind name j [] h = refl
get-delete_owned kind name j ((id, a) ∷ rest) h = elim (Bool-cases (id == j)) [
  | inl e ↦
      let absent = not_doomed kind name j rest (rw ((eq_iff id j).0 e) at h.1) in
      rw (e, absent) (ground arith)
  | inr e ↦ rw e (get-delete_owned kind name j rest h.2)
]

-- What deleting a stored service does to each assignment: those that it owns are gone, and every
-- other is as it was. The service is gone too; the nodes and the jobs stay.
pub record Deleted (kind : Kind) (name : String) (s t : MemoryStore) : Type 0 where
  pub assignments :
      (j : String) → Assoc.get j t.assignments ≡ unless_owned kind name (Assoc.get j s.assignments)
  pub nodes : t.nodes ≡ s.nodes

-- Deleting a stored service of a well-formed store succeeds and takes away the service and the
-- assignments that it owns; every other assignment, the nodes and the jobs are as they were.
pub delete_service-Deleted :
    (s : MemoryStore) (name : String) {v : Service}
    → IsKeyed s
    → Assoc.get name s.services ≡ some v
    → ((delete_service s name).1 ≡ true)
      × Deleted service name s (delete_service s name).0
      × (Assoc.get name (delete_service s name).0.services ≡ none)
      × ((delete_service s name).0.jobs ≡ s.jobs)
unfolding delete_service
delete_service-Deleted s name h g =
    rw (g, delete_service)
      (
        refl,
        record {
          assignments = λ j.
              get-delete_owned_loop service name j s.assignments s.assignments
              ∙ get-delete_owned service name j s.assignments h.assignments;
          nodes = refl;
        },
        ground (arith, get-remove name name s.services, eq_iff name name),
        refl,
      )

-- Deleting a stored job of a well-formed store succeeds and takes away the job and the
-- assignments that it owns; every other assignment, the nodes and the services are as they were.
pub delete_job-Deleted :
    (s : MemoryStore) (name : String) {j : Job}
    → IsKeyed s
    → Assoc.get name s.jobs ≡ some j
    → ((delete_job s name).1 ≡ true)
      × Deleted job name s (delete_job s name).0
      × (Assoc.get name (delete_job s name).0.jobs ≡ none)
      × ((delete_job s name).0.services ≡ s.services)
unfolding delete_job
delete_job-Deleted s name h g =
    rw (g, delete_job)
      (
        refl,
        record {
          assignments = λ j.
              get-delete_owned_loop job name j s.assignments s.assignments
              ∙ get-delete_owned job name j s.assignments h.assignments;
          nodes = refl;
        },
        ground (arith, get-remove name name s.jobs, eq_iff name name),
        refl,
      )
