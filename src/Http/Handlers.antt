-- ===== src/Http/Handlers.antt =====
-- internal/controller/handlers.go: the handlers of the user-facing API, which an administrator calls.
use k3_control_plane.Base.{String, Bool, true, false, ◌||◌, ◌==◌, if◌then◌else◌}
use k3_control_plane.Base.Int.{pos, ltb_ℤ}
use k3_control_plane.Base.Strings.{trim_prefix, contains}
use k3_control_plane.Api.{Service, Job}
use k3_control_plane.Store.{
  MemoryStore, list_nodes, list_services, list_jobs, upsert_service, upsert_job, delete_service,
  delete_job, snapshot,
}
use k3_control_plane.Controller.{Controller}
use k3_control_plane.Http.{
  Request, Served, respond, http_error, not_found, method_not_allowed, Decoders, decode_json,
  with_store, nothing, service, service_list, job, job_list, node_list, state,
}

-- The defaults of a posted service.
unfoldable pub default_service : Service → Service
default_service v =
    let replicas = if ltb_ℤ (pos 0) v.replicas then v.replicas else pos 1 in
    record v { replicas = replicas; status = record (v.status) { desired_replicas = replicas } }

-- The response to a delete, by whether there was something to delete.
unfoldable pub deleted : String → Controller → MemoryStore × Bool → Served
deleted message c (s, true) = respond 204 nothing (with_store c s)
deleted message c (s, false) = http_error message 404 (with_store c s)

unfoldable pub post_service : Service → Controller → Served
post_service v c =
    if v.name == "" || v.image == ""
    then http_error "service name and image are required" 400 c
    else respond 201 (service (default_service v))
        (with_store c (upsert_service c.store (default_service v)))

unfoldable pub remove_service : String → Controller → Served
remove_service name c =
    if name == "" || contains name "/"
    then http_error "service name required" 400 c
    else deleted "service not found" c (delete_service c.store name)

unfoldable pub handle_services : Decoders → Request → Controller → Served
handle_services json r c =
    if r.method == "GET"
    then (if r.path == "/services"
        then respond 200 (service_list (list_services c.store)) c
        else not_found c)
    else if r.method == "POST"
    then (if r.path == "/services"
        then decode_json (json.decode_service r.body) post_service c
        else not_found c)
    else if r.method == "DELETE"
    then remove_service (trim_prefix r.path "/services/") c
    else method_not_allowed c

unfoldable pub post_job : Job → Controller → Served
post_job j c =
    if j.name == "" || j.image == ""
    then http_error "job name and image are required" 400 c
    else respond 201 (job j) (with_store c (upsert_job c.store j))

unfoldable pub remove_job : String → Controller → Served
remove_job name c =
    if name == "" || contains name "/"
    then http_error "job name required" 400 c
    else deleted "job not found" c (delete_job c.store name)

unfoldable pub handle_jobs : Decoders → Request → Controller → Served
handle_jobs json r c =
    if r.method == "GET"
    then (if r.path == "/jobs" then respond 200 (job_list (list_jobs c.store)) c else not_found c)
    else if r.method == "POST"
    then (if r.path == "/jobs"
        then decode_json (json.decode_job r.body) post_job c
        else not_found c)
    else if r.method == "DELETE"
    then remove_job (trim_prefix r.path "/jobs/") c
    else method_not_allowed c

unfoldable pub handle_nodes : Request → Controller → Served
handle_nodes r c =
    if r.method == "GET"
    then respond 200 (node_list (list_nodes c.store)) c
    else method_not_allowed c

unfoldable pub handle_state : Request → Controller → Served
handle_state r c =
    if r.method == "GET" then respond 200 (state (snapshot c.store)) c else method_not_allowed c
