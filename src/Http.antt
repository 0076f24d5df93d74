-- ===== src/Http.antt =====
-- internal/controller/http.go and respond.go: the HTTP server of the controller.
--
-- A request is served in one step, which takes the controller before it and gives the controller after
-- it with the response. A response holds the value that `writeJSON` encodes; decoding a body is a
-- parameter, `Decoders`, for encoding/json is not code of this repository.
pub mod Auth
pub mod Handlers
pub mod Nodes
pub mod Routes
pub mod Changes
pub mod Cases
pub mod Ownership
pub mod Invariant
pub mod Join
use k3_control_plane.Base.{ℕ, String, Option, List}
use k3_control_plane.Api.{Node, Service, Job, Assignment, StateSnapshot}
use k3_control_plane.Api.Phases.{Phase}
use k3_control_plane.Store.{MemoryStore}
use k3_control_plane.Controller.{Controller}

-- `r.TLS.VerifiedChains` as the common names of the certificates, `none` without TLS.
pub record Request : Type 0 where
  pub method : String
  pub path : String
  pub authorization : String
  pub verified_chains : Option (List (List String))
  pub body : String

pub data Payload : Type 0 where
  nothing : Payload
  error : String → Payload
  pem : String → Payload
  cert : String → Payload
  service : Service → Payload
  service_list : List Service → Payload
  job : Job → Payload
  job_list : List Job → Payload
  node : Node → Payload
  node_list : List Node → Payload
  assignment : Assignment → Payload
  assignment_list : List Assignment → Payload
  state : StateSnapshot → Payload
  status_ok : Payload

pub record Response : Type 0 where
  pub status : ℕ
  pub payload : Payload

-- The controller after a request, and the response.
abbrev pub Served : Type 0
Served = Controller × Response

unfoldable pub respond : ℕ → Payload → Controller → Served
respond status payload c = (c, record { status = status; payload = payload })

-- `http.Error`
unfoldable pub http_error : String → ℕ → Controller → Served
http_error message status c = (c, record { status = status; payload = error message })

unfoldable pub not_found : Controller → Served
not_found = http_error "404 page not found" 404

unfoldable pub method_not_allowed : Controller → Served
method_not_allowed = http_error "method not allowed" 405

-- What `decoder.Decode` makes of a body: a value, or the text of an error.
pub data Decoded (A : Type 0) : Type 0 where
  decoded : A → Decoded A
  malformed : String → Decoded A

pub record HeartbeatPayload : Type 0 where
  pub id : String

pub record StatusPayload : Type 0 where
  pub phase : Phase
  pub message : String

pub record JoinRequest : Type 0 where
  pub node_id : String
  pub csr : String

pub record Decoders : Type 0 where
  pub decode_service : String → Decoded Service
  pub decode_job : String → Decoded Job
  pub decode_node : String → Decoded Node
  pub decode_heartbeat : String → Decoded HeartbeatPayload
  pub decode_status : String → Decoded StatusPayload
  pub decode_join : String → Decoded JoinRequest

-- `decodeJSON` with what follows it: an error ends the request.
unfoldable pub decode_json :
    {A : Type 0} → Decoded A → (A → Controller → Served) → Controller → Served
decode_json (decoded a) next c = next a c
decode_json (malformed e) next c = http_error e 400 c

-- The caller's store write.
unfoldable pub with_store : Controller → MemoryStore → Controller
with_store c s = record c { store = s }
