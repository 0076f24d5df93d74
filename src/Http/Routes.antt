-- ===== src/Http/Routes.antt =====
-- internal/controller/http.go: `Handler`, which binds paths to guarded handlers, with what Go's
-- `http.ServeMux` does with them.
use k3_control_plane.Base.{String, Bool, not, ◌&&◌, ◌||◌, ◌==◌, if◌then◌else◌}
use k3_control_plane.Base.Strings.{has_prefix, has_suffix, contains}
use k3_control_plane.Api.{Time}
use k3_control_plane.Controller.{Controller}
use k3_control_plane.Http.{Request, Served, respond, not_found, Decoders, nothing}
use k3_control_plane.Http.Auth.{Auth, admin_only, node_only, handle_ca_certs, handle_join}
use k3_control_plane.Http.Handlers.{handle_services, handle_jobs, handle_nodes, handle_state}
use k3_control_plane.Http.Nodes.{
  handle_node_register, handle_node_heartbeat, handle_node_assignments, handle_assignment_status,
}

-- The mux sends a client elsewhere whose path is not rooted or has an empty, `.` or `..` element.
unfoldable pub is_clean : String → Bool
is_clean path =
    has_prefix path "/"
    && not (
        contains path "//"
        || (contains path "/./"
            || (contains path "/../" || (has_suffix path "/." || has_suffix path "/.."))))

-- The registered patterns, of which the longest that matches is taken; `/assignments` has only
-- its subtree registered and is redirected to it.
unfoldable pub route : Auth → Decoders → Time → Request → Controller → Served
route auth json now r c =
    if r.path == "/cacerts"
    then handle_ca_certs auth r c
    else if r.path == "/nodes/join"
    then handle_join auth json r c
    else if r.path == "/services" || has_prefix r.path "/services/"
    then admin_only (handle_services json) r c
    else if r.path == "/jobs" || has_prefix r.path "/jobs/"
    then admin_only (handle_jobs json) r c
    else if r.path == "/nodes"
    then admin_only handle_nodes r c
    else if r.path == "/state"
    then admin_only handle_state r c
    else if r.path == "/nodes/register"
    then node_only (handle_node_register now json) r c
    else if r.path == "/nodes/heartbeat"
    then node_only (handle_node_heartbeat now json) r c
    else if has_prefix r.path "/nodes/"
    then node_only handle_node_assignments r c
    else if has_prefix r.path "/assignments/"
    then node_only (handle_assignment_status now json) r c
    else if r.path == "/assignments"
    then respond 301 nothing c
    else not_found c

unfoldable pub serve_http : Auth → Decoders → Time → Request → Controller → Served
serve_http auth json now r c =
    if is_clean r.path || r.method == "CONNECT"
    then route auth json now r c
    else respond 301 nothing c
