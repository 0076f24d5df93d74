-- ===== src/Tests/Data.antt =====
-- A cluster of two nodes, one of them silent, with a service and a job.
use mathlib.Core.Bool.{false≢true}
use Prim.Native.String.{◌++◌}
use k3_control_plane.Base.{
  ℕ, suc, ◌%◌, ◌≢◌, eq_iff, String, ◌≡◌, refl, ◌⊎◌, inl, inr, arith, none, List, [], ◌∷◌,
}
use k3_control_plane.Base.Int.{pos}
use k3_control_plane.Base.Assoc
use k3_control_plane.Base.Assoc.{Assoc}
use k3_control_plane.Api.{
  ResourceRequirements, Placement, Node, Service, Job, Assignment, zero_job_status,
}
use k3_control_plane.Api.Phases.{Kind, Phase, running, failed}
use k3_control_plane.Api.Phases
use k3_control_plane.Store.{MemoryStore}
use k3_control_plane.Store.Keyed.{IsKeyed}
use k3_control_plane.Controller.{Controller}
use k3_control_plane.Controller.Ids.{Env, random_suffix, letter, suffix_alphabet}
use k3_control_plane.Controller.Fresh.{IsSpread, suffixes}

abbrev pub amounts : ℕ → ResourceRequirements
amounts n = record { cpu = pos n; memory = pos n }

abbrev pub anywhere : Placement
anywhere = record { required_labels = [] }

abbrev pub node_at : String → ℕ → Node
node_at id heartbeat = record {
  id = id;
  labels = [];
  capacity = amounts 1000;
  last_heartbeat = heartbeat;
}

abbrev pub web : Service
web = record {
  name = "web";
  image = "nginx";
  command = [];
  env = [];
  replicas = pos 1;
  resources = amounts 100;
  placement = anywhere;
  volumes = [];
  ports = [];
  status = record {
    desired_replicas = pos 1;
    pending_replicas = pos 0;
    running_replicas = pos 0;
    assignment_ids = [];
    last_reconciled_unix = pos 0;
  };
}

abbrev pub batch : Job
batch = record {
  name = "batch";
  image = "busybox";
  command = [];
  env = [];
  resources = amounts 100;
  placement = anywhere;
  volumes = [];
  retries = pos 1;
  status = zero_job_status;
}

abbrev pub work : String → Kind → String → String → Phase → Assignment
work id kind owner node_id phase = record {
  id = id;
  owner_kind = kind;
  owner_name = owner;
  node_id = node_id;
  image = "busybox";
  command = [];
  env = [];
  resources = amounts 100;
  volumes = [];
  ports = [];
  attempt = pos 1;
  phase = phase;
  status_message = "";
  created_at = 50;
  started_at = none;
  finished_at = none;
}

-- A replica on the silent node, and one on the other.
abbrev pub silent_replica : Assignment
silent_replica = work "web-1-b" Phases.service "web" "b" running

abbrev pub live_replica : Assignment
live_replica = work "web-1-a" Phases.service "web" "a" running

abbrev pub failed_run : Assignment
failed_run = work "batch-1-x" Phases.job "batch" "a" failed

abbrev pub by_id : List Assignment → Assoc Assignment
by_id [] = []
by_id (a ∷ rest) = (a.id, a) ∷ by_id rest

abbrev pub cluster : List Assignment → MemoryStore
cluster list = record {
  nodes = ("a", node_at "a" 90) ∷ ("b", node_at "b" 10) ∷ [];
  services = ("web", web) ∷ [];
  jobs = ("batch", batch) ∷ [];
  assignments = by_id list;
}

abbrev pub controller_of : MemoryStore → Controller
controller_of s = record {
  store = s;
  scheduler = record { node_timeout = 30 };
  node_timeout = 30;
  started_at = 0;
  draws = 0;
}

pub one-IsKeyed : (a : Assignment) → IsKeyed (cluster (a ∷ []))
unfolding Assoc.get
one-IsKeyed a = record {
  nodes = (refl, refl, (refl, refl, tt));
  services = (refl, refl, tt);
  jobs = (refl, refl, tt);
  assignments = (refl, refl, tt);
}

-- A random source that alternates.
abbrev pub alternating : Env
alternating = record { random_bytes = λ n. (n % 2) ∷ 0 ∷ 0 ∷ 0 ∷ 0 ∷ []; to_lower = λ s. s }

parity : (n : ℕ) → ((n % 2 ≡ 0) × (suc n % 2 ≡ 1)) ⊎ ((n % 2 ≡ 1) × (suc n % 2 ≡ 0))
parity n = ground arith

differ :
    (n : ℕ)
    → letter (n % 2 % 27) suffix_alphabet ++ "bbbb"
      ≢ letter (suc n % 2 % 27) suffix_alphabet ++ "bbbb"
unfolding letter
differ n = elim (parity n) [
  | inl (e, o) ↦ rw (e, o) (λ h. false≢true ((eq_iff _ _).1 h))
  | inr (o, e) ↦ rw (o, e) (λ h. false≢true ((eq_iff _ _).1 h))
]

pub alternating-IsSpread : IsSpread alternating 2
unfolding suffixes random_suffix letter
alternating-IsSpread draws = ((differ draws, tt), (tt, tt))
