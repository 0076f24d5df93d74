-- ===== src/Api/Clone.antt =====
-- internal/api/clone.go: the copies that the store hands out. The keys of a Go map are distinct, so
-- each `out[k] = v` of the copying loop adds one entry to the new map.
use k3_control_plane.Base.{String, ◌≡◌, refl, ap, List, [], ◌∷◌, Option, none, some}
use k3_control_plane.Base.Int.{ℤ}
use k3_control_plane.Api.{Time, StringMap, Volume, Node, Service, Job, Assignment}

unfoldable pub clone_string_map : StringMap → StringMap
clone_string_map [] = []
clone_string_map ((k, v) ∷ rest) = (k, v) ∷ clone_string_map rest

unfoldable pub clone_string_slice : List String → List String
clone_string_slice [] = []
clone_string_slice (x ∷ xs) = x ∷ clone_string_slice xs

unfoldable pub clone_ints : List ℤ → List ℤ
clone_ints [] = []
clone_ints (x ∷ xs) = x ∷ clone_ints xs

unfoldable pub clone_volumes : List Volume → List Volume
clone_volumes [] = []
clone_volumes (x ∷ xs) = x ∷ clone_volumes xs

unfoldable pub clone_time_ptr : Option Time → Option Time
clone_time_ptr none = none
clone_time_ptr (some value) = some value

unfoldable pub clone_node : Node → Node
clone_node n = record {
  id = n.id;
  labels = clone_string_map n.labels;
  capacity = n.capacity;
  last_heartbeat = n.last_heartbeat;
}

unfoldable pub clone_service : Service → Service
clone_service s = record {
  name = s.name;
  image = s.image;
  command = clone_string_slice s.command;
  env = clone_string_map s.env;
  replicas = s.replicas;
  resources = s.resources;
  placement = record { required_labels = clone_string_map s.placement.required_labels };
  volumes = clone_volumes s.volumes;
  ports = clone_ints s.ports;
  status = record {
    desired_replicas = s.status.desired_replicas;
    pending_replicas = s.status.pending_replicas;
    running_replicas = s.status.running_replicas;
    assignment_ids = clone_string_slice s.status.assignment_ids;
    last_reconciled_unix = s.status.last_reconciled_unix;
  };
}

unfoldable pub clone_job : Job → Job
clone_job j = record {
  name = j.name;
  image = j.image;
  command = clone_string_slice j.command;
  env = clone_string_map j.env;
  resources = j.resources;
  placement = record { required_labels = clone_string_map j.placement.required_labels };
  volumes = clone_volumes j.volumes;
  retries = j.retries;
  status = record {
    active_assignment_id = j.status.active_assignment_id;
    last_assignment_id = j.status.last_assignment_id;
    succeeded = j.status.succeeded;
    failed_attempts = j.status.failed_attempts;
    last_failure = j.status.last_failure;
    completed_at = clone_time_ptr j.status.completed_at;
  };
}

unfoldable pub clone_assignment : Assignment → Assignment
clone_assignment a = record {
  id = a.id;
  owner_kind = a.owner_kind;
  owner_name = a.owner_name;
  node_id = a.node_id;
  image = a.image;
  command = clone_string_slice a.command;
  env = clone_string_map a.env;
  resources = a.resources;
  volumes = clone_volumes a.volumes;
  ports = clone_ints a.ports;
  attempt = a.attempt;
  phase = a.phase;
  status_message = a.status_message;
  created_at = a.created_at;
  started_at = clone_time_ptr a.started_at;
  finished_at = clone_time_ptr a.finished_at;
}

clone_string_map_lem : (m : StringMap) → clone_string_map m ≡ m
unfolding clone_string_map
clone_string_map_lem [] = refl
clone_string_map_lem (e ∷ rest) = ap (λ r. e ∷ r) (clone_string_map_lem rest)

clone_string_slice_lem : (xs : List String) → clone_string_slice xs ≡ xs
unfolding clone_string_slice
clone_string_slice_lem [] = refl
clone_string_slice_lem (x ∷ xs) = ap (λ r. x ∷ r) (clone_string_slice_lem xs)

clone_ints_lem : (xs : List ℤ) → clone_ints xs ≡ xs
unfolding clone_ints
clone_ints_lem [] = refl
clone_ints_lem (x ∷ xs) = ap (λ r. x ∷ r) (clone_ints_lem xs)

clone_volumes_lem : (xs : List Volume) → clone_volumes xs ≡ xs
unfolding clone_volumes
clone_volumes_lem [] = refl
clone_volumes_lem (x ∷ xs) = ap (λ r. x ∷ r) (clone_volumes_lem xs)

clone_time_ptr_lem : (t : Option Time) → clone_time_ptr t ≡ t
unfolding clone_time_ptr
clone_time_ptr_lem none = refl
clone_time_ptr_lem (some t) = refl

ruleset clones = (
  clone_string_map_lem, clone_string_slice_lem, clone_ints_lem, clone_volumes_lem,
  clone_time_ptr_lem,
)

-- Every copy holds what the original holds.
pub clone_node_lem : (n : Node) → clone_node n ≡ n
unfolding clone_node
clone_node_lem n = simp clones

pub clone_service_lem : (s : Service) → clone_service s ≡ s
unfolding clone_service
clone_service_lem s = simp clones

pub clone_job_lem : (j : Job) → clone_job j ≡ j
unfolding clone_job
clone_job_lem j = simp clones

pub clone_assignment_lem : (a : Assignment) → clone_assignment a ≡ a
unfolding clone_assignment
clone_assignment_lem a = simp clones
