-- ===== src/Api.antt =====
-- internal/api/types.go and phases.go: the objects that the controller keeps and sends.
--
-- A Go slice or map that is nil and one that is empty are one value here: the code only takes
-- their length and ranges over them. A `time.Time` is the number of nanoseconds since Go's zero
-- time, and a `*time.Time` an option. An `int` is `ℤ`, an `int64` of Unix seconds too.
pub mod Clone
pub mod Phases
use k3_control_plane.Base.{ℕ, String, Bool, false, Option, none, List}
use k3_control_plane.Base.Int.{ℤ, pos}
use k3_control_plane.Base.Assoc.{Assoc}
use k3_control_plane.Api.Phases.{Phase, Kind}

abbrev pub Time : Type 0
Time = ℕ

abbrev pub StringMap : Type 0
StringMap = Assoc String

pub record ResourceRequirements : Type 0 where
  pub cpu : ℤ
  pub memory : ℤ

pub record Placement : Type 0 where
  pub required_labels : StringMap

pub record Volume : Type 0 where
  pub name : String
  pub host_path : String
  pub mount_path : String

pub record Node : Type 0 where
  pub id : String
  pub labels : StringMap
  pub capacity : ResourceRequirements
  pub last_heartbeat : Time

pub record ServiceStatus : Type 0 where
  pub desired_replicas : ℤ
  pub pending_replicas : ℤ
  pub running_replicas : ℤ
  pub assignment_ids : List String
  pub last_reconciled_unix : ℤ

pub record Service : Type 0 where
  pub name : String
  pub image : String
  pub command : List String
  pub env : StringMap
  pub replicas : ℤ
  pub resources : ResourceRequirements
  pub placement : Placement
  pub volumes : List Volume
  pub ports : List ℤ
  pub status : ServiceStatus

pub record JobStatus : Type 0 where
  pub active_assignment_id : String
  pub last_assignment_id : String
  pub succeeded : Bool
  pub failed_attempts : ℤ
  pub last_failure : String
  pub completed_at : Option Time

pub record Job : Type 0 where
  pub name : String
  pub image : String
  pub command : List String
  pub env : StringMap
  pub resources : ResourceRequirements
  pub placement : Placement
  pub volumes : List Volume
  pub retries : ℤ
  pub status : JobStatus

pub record Assignment : Type 0 where
  pub id : String
  pub owner_kind : Kind
  pub owner_name : String
  pub node_id : String
  pub image : String
  pub command : List String
  pub env : StringMap
  pub resources : ResourceRequirements
  pub volumes : List Volume
  pub ports : List ℤ
  pub attempt : ℤ
  pub phase : Phase
  pub status_message : String
  pub created_at : Time
  pub started_at : Option Time
  pub finished_at : Option Time

pub record StateSnapshot : Type 0 where
  pub nodes : List Node
  pub services : List Service
  pub jobs : List Job
  pub assignments : List Assignment

-- Go's zero values.
abbrev pub zero_resources : ResourceRequirements
zero_resources = record { cpu = pos 0; memory = pos 0 }

abbrev pub zero_job_status : JobStatus
zero_job_status = record {
  active_assignment_id = "";
  last_assignment_id = "";
  succeeded = false;
  failed_attempts = pos 0;
  last_failure = "";
  completed_at = none;
}
