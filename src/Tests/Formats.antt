-- ===== src/Tests/Formats.antt =====
-- An encoding of the objects of internal/api as texts that is never refused and is always read back. It
-- stands for `encoding/json` in the tests.
use Prim.Native.String.{String, []}
use Prim.Native.Nat.{ℕ, zero, suc}
use mathlib.Core.Option.{some-injective}
use k3_control_plane.Base.{◌≡◌, refl, sym, Option, none, some, nat_eq, if◌then◌else◌}
use k3_control_plane.Api.{
  ResourceRequirements, Placement, Volume, Node, ServiceStatus, Service, JobStatus, Job, Assignment,
  StringMap,
}
use k3_control_plane.Api.Phases.{Kind, Phase}
use k3_control_plane.Api.Phases
use k3_control_plane.Sqlite.{Codec, Codecs}
use k3_control_plane.Sqlite.Represents.{IsLossless, AreLossless}
use k3_control_plane.Tests.Texts.{Format, text, number, pair, via, items, option, truth, integer}

abbrev of_kind : Kind → ℕ × String
of_kind Phases.service = (0, [])
of_kind Phases.job = (1, [])
of_kind (Phases.other s) = (2, s)

abbrev to_kind : ℕ × String → Kind
to_kind (zero, s) = Phases.service
to_kind (suc zero, s) = Phases.job
to_kind (suc (suc n), s) = Phases.other s

to_kind-of_kind : (k : Kind) → to_kind (of_kind k) ≡ k
to_kind-of_kind Phases.service = refl
to_kind-of_kind Phases.job = refl
to_kind-of_kind (Phases.other s) = refl

kind : Format Kind
kind = via of_kind to_kind to_kind-of_kind (pair number text)

abbrev of_phase : Phase → ℕ × String
of_phase Phases.pending = (0, [])
of_phase Phases.running = (1, [])
of_phase Phases.succeeded = (2, [])
of_phase Phases.failed = (3, [])
of_phase Phases.stopped = (4, [])
of_phase Phases.lost = (5, [])
of_phase (Phases.unknown s) = (6, s)

abbrev to_phase : ℕ × String → Phase
to_phase (n, s) =
    if nat_eq n 0
    then Phases.pending
    else if nat_eq n 1
    then Phases.running
    else if nat_eq n 2
    then Phases.succeeded
    else if nat_eq n 3
    then Phases.failed
    else if nat_eq n 4
    then Phases.stopped
    else if nat_eq n 5
    then Phases.lost
    else Phases.unknown s

to_phase-of_phase : (p : Phase) → to_phase (of_phase p) ≡ p
to_phase-of_phase Phases.pending = refl
to_phase-of_phase Phases.running = refl
to_phase-of_phase Phases.succeeded = refl
to_phase-of_phase Phases.failed = refl
to_phase-of_phase Phases.stopped = refl
to_phase-of_phase Phases.lost = refl
to_phase-of_phase (Phases.unknown s) = refl

phase : Format Phase
phase = via of_phase to_phase to_phase-of_phase (pair number text)

string_map : Format StringMap
string_map = items (pair text text)

resources : Format ResourceRequirements
resources =
    via (λ x. (x.cpu, x.memory)) (λ p. record { cpu = p.0; memory = p.1 }) (λ x. refl)
      (pair integer integer)

placement : Format Placement
placement =
    via (λ x. x.required_labels) (λ p. record { required_labels = p }) (λ x. refl) string_map

volume : Format Volume
volume =
    via (λ x. (x.name, (x.host_path, x.mount_path)))
      (λ p. record { name = p.0; host_path = p.1.0; mount_path = p.1.1 }) (λ x. refl)
      (pair text (pair text text))

pub node : Format Node
node =
    via (λ x. (x.id, (x.labels, (x.capacity, x.last_heartbeat))))
      (λ p. record { id = p.0; labels = p.1.0; capacity = p.1.1.0; last_heartbeat = p.1.1.1 })
      (λ x. refl) (pair text (pair string_map (pair resources number)))

service_status : Format ServiceStatus
service_status =
    via
      (λ x. (
        x.desired_replicas,
        (x.pending_replicas, (x.running_replicas, (x.assignment_ids, x.last_reconciled_unix))),
      ))
      (λ p. record {
        desired_replicas = p.0;
        pending_replicas = p.1.0;
        running_replicas = p.1.1.0;
        assignment_ids = p.1.1.1.0;
        last_reconciled_unix = p.1.1.1.1;
      })
      (λ x. refl) (pair integer (pair integer (pair integer (pair (items text) integer))))

pub service : Format Service
service =
    via
      (λ x. (
        x.name,
        (
          x.image,
          (
            x.command,
            (x.env, (x.replicas, (x.resources, (x.placement, (x.volumes, (x.ports, x.status)))))),
          ),
        ),
      ))
      (λ p. record {
        name = p.0;
        image = p.1.0;
        command = p.1.1.0;
        env = p.1.1.1.0;
        replicas = p.1.1.1.1.0;
        resources = p.1.1.1.1.1.0;
        placement = p.1.1.1.1.1.1.0;
        volumes = p.1.1.1.1.1.1.1.0;
        ports = p.1.1.1.1.1.1.1.1.0;
        status = p.1.1.1.1.1.1.1.1.1;
      })
      (λ x. refl)
      (pair text (
        pair text (
          pair (items text) (
            pair string_map (
              pair integer (
                pair resources
                  (pair placement (pair (items volume) (pair (items integer) service_status)))))))))

job_status : Format JobStatus
job_status =
    via
      (λ x. (
        x.active_assignment_id,
        (
          x.last_assignment_id,
          (x.succeeded, (x.failed_attempts, (x.last_failure, x.completed_at))),
        ),
      ))
      (λ p. record {
        active_assignment_id = p.0;
        last_assignment_id = p.1.0;
        succeeded = p.1.1.0;
        failed_attempts = p.1.1.1.0;
        last_failure = p.1.1.1.1.0;
        completed_at = p.1.1.1.1.1;
      })
      (λ x. refl) (pair text (pair text (pair truth (pair integer (pair text (option number))))))

pub job : Format Job
job =
    via
      (λ x. (
        x.name,
        (
          x.image,
          (x.command, (x.env, (x.resources, (x.placement, (x.volumes, (x.retries, x.status)))))),
        ),
      ))
      (λ p. record {
        name = p.0;
        image = p.1.0;
        command = p.1.1.0;
        env = p.1.1.1.0;
        resources = p.1.1.1.1.0;
        placement = p.1.1.1.1.1.0;
        volumes = p.1.1.1.1.1.1.0;
        retries = p.1.1.1.1.1.1.1.0;
        status = p.1.1.1.1.1.1.1.1;
      })
      (λ x. refl)
      (pair text (
        pair text (
          pair (items text) (
            pair string_map
              (pair resources (pair placement (pair (items volume) (pair integer job_status))))))))

pub assignment : Format Assignment
assignment =
    via
      (λ x. (
        x.id,
        (
          x.owner_kind,
          (
            x.owner_name,
            (
              x.node_id,
              (
                x.image,
                (
                  x.command,
                  (
                    x.env,
                    (
                      x.resources,
                      (
                        x.volumes,
                        (
                          x.ports,
                          (
                            x.attempt,
                            (
                              x.phase,
                              (x.status_message, (x.created_at, (x.started_at, x.finished_at))),
                            ),
                          ),
                        ),
                      ),
                    ),
                  ),
                ),
              ),
            ),
          ),
        ),
      ))
      (λ p. record {
        id = p.0;
        owner_kind = p.1.0;
        owner_name = p.1.1.0;
        node_id = p.1.1.1.0;
        image = p.1.1.1.1.0;
        command = p.1.1.1.1.1.0;
        env = p.1.1.1.1.1.1.0;
        resources = p.1.1.1.1.1.1.1.0;
        volumes = p.1.1.1.1.1.1.1.1.0;
        ports = p.1.1.1.1.1.1.1.1.1.0;
        attempt = p.1.1.1.1.1.1.1.1.1.1.0;
        phase = p.1.1.1.1.1.1.1.1.1.1.1.0;
        status_message = p.1.1.1.1.1.1.1.1.1.1.1.1.0;
        created_at = p.1.1.1.1.1.1.1.1.1.1.1.1.1.0;
        started_at = p.1.1.1.1.1.1.1.1.1.1.1.1.1.1.0;
        finished_at = p.1.1.1.1.1.1.1.1.1.1.1.1.1.1.1;
      })
      (λ x. refl)
      (pair text (
        pair kind (
          pair text (
            pair text (
              pair text (
                pair (items text) (
                  pair string_map (
                    pair resources (
                      pair (items volume) (
                        pair (items integer) (
                          pair integer (
                            pair phase (
                              pair text
                                (pair number (pair (option number) (option number))))))))))))))))

abbrev pub first_of : {A : Type 0} → Option (A × String) → Option A
first_of none = none
first_of (some (a, rest)) = some a

abbrev pub codec_of : {A : Type 0} → Format A → Codec A
codec_of f = record { encode = λ a. some (f.print a []); decode = λ s. first_of (f.parse s) }

codec_of-IsLossless : {A : Type 0} (f : Format A) → IsLossless (codec_of f)
codec_of-IsLossless f a s e = rw (sym (some-injective (f.print a []) s e), f.parse_print a []) refl

abbrev pub formats : Codecs
formats = record {
  node = codec_of node;
  service = codec_of service;
  job = codec_of job;
  assignment = codec_of assignment;
}

pub formats-AreLossless : AreLossless formats
formats-AreLossless = record {
  node = codec_of-IsLossless node;
  service = codec_of-IsLossless service;
  job = codec_of-IsLossless job;
  assignment = codec_of-IsLossless assignment;
}
