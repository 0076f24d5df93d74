-- ===== src/Http/Nodes.antt =====
-- internal/controller/handlers.go: the handlers of the agents' API. `caller` is the ID of the node that
-- the client certificate names.
use k3_control_plane.Base.{
  String, Bool, true, false, ◌==◌, Option, none, some, List, [], ◌∷◌, filter_by, if◌then◌else◌,
}
use k3_control_plane.Base.Strings.{has_suffix, trim_prefix, trim_suffix}
use k3_control_plane.Api.{Time, Node, Assignment}
use k3_control_plane.Api.Phases.{
  Phase, running, succeeded, failed, stopped, pending, lost, unknown, is_active_phase,
}
use k3_control_plane.Store.{
  MemoryStore, upsert_node, touch_node, list_node_assignments, update_assignment_status,
}
use k3_control_plane.Controller.{Controller}
use k3_control_plane.Http.{
  Request, Served, respond, http_error, not_found, method_not_allowed, Decoders, decode_json,
  with_store, HeartbeatPayload, StatusPayload, node, status_ok, assignment, assignment_list,
}

unfoldable pub register_node : Time → String → Node → Controller → Served
register_node now caller n c =
    let n' = record n { last_heartbeat = now } in
    if n.id == caller
    then respond 201 (node n') (with_store c (upsert_node c.store n'))
    else http_error "a node can only register itself" 403 c

unfoldable pub handle_node_register : Time → Decoders → Request → String → Controller → Served
handle_node_register now json r caller c =
    if r.method == "POST"
    then decode_json (json.decode_node r.body) (register_node now caller) c
    else method_not_allowed c

unfoldable pub touched : Controller → MemoryStore × Bool → Served
touched c (s, true) = respond 200 status_ok (with_store c s)
touched c (s, false) = http_error "node not found" 404 (with_store c s)

unfoldable pub heartbeat : Time → String → HeartbeatPayload → Controller → Served
heartbeat now caller payload c =
    if payload.id == caller
    then touched c (touch_node c.store payload.id now)
    else http_error "a node can only heartbeat for itself" 403 c

unfoldable pub handle_node_heartbeat : Time → Decoders → Request → String → Controller → Served
handle_node_heartbeat now json r caller c =
    if r.method == "POST"
    then decode_json (json.decode_heartbeat r.body) (heartbeat now caller) c
    else method_not_allowed c

unfoldable pub node_assignments : String → String → Controller → Served
node_assignments caller node_id c =
    if node_id == ""
    then not_found c
    else if node_id == caller
    then respond 200
        (assignment_list
          (filter_by (λ a. is_active_phase a.phase) (list_node_assignments c.store node_id)))
        c
    else http_error "a node can only read its own assignments" 403 c

unfoldable pub handle_node_assignments : Request → String → Controller → Served
handle_node_assignments r caller c =
    if r.method == "GET"
    then (if has_suffix r.path "/assignments"
        then node_assignments caller (trim_prefix (trim_suffix r.path "/assignments") "/nodes/") c
        else not_found c)
    else method_not_allowed c

-- The loop of `ownsAssignment`.
unfoldable pub any_id : String → List Assignment → Bool
any_id assignment_id [] = false
any_id assignment_id (a ∷ rest) =
    let later = any_id assignment_id rest in if a.id == assignment_id then true else later

unfoldable pub owns_assignment : MemoryStore → String → String → Bool
owns_assignment s node_id assignment_id = any_id assignment_id (list_node_assignments s node_id)

unfoldable pub is_agent_reportable_phase : Phase → Bool
is_agent_reportable_phase running = true
is_agent_reportable_phase succeeded = true
is_agent_reportable_phase failed = true
is_agent_reportable_phase stopped = true
is_agent_reportable_phase pending = false
is_agent_reportable_phase lost = false
is_agent_reportable_phase (unknown _) = false

unfoldable pub reported : Controller → MemoryStore × Option Assignment → Served
reported c (s, some a) = respond 200 (assignment a) (with_store c s)
reported c (s, none) = http_error "assignment not found" 404 (with_store c s)

unfoldable pub report_status : Time → String → String → StatusPayload → Controller → Served
report_status now caller id payload c =
    if is_agent_reportable_phase payload.phase
    then (if owns_assignment c.store caller id
        then reported c (update_assignment_status c.store id payload.phase payload.message now)
        else http_error "assignment not found on this node" 404 c)
    else http_error "agents may report Running, Succeeded, Failed or Stopped" 400 c

unfoldable pub post_status : Time → Decoders → Request → String → String → Controller → Served
post_status now json r caller id c =
    if id == ""
    then not_found c
    else decode_json (json.decode_status r.body) (report_status now caller id) c

unfoldable pub handle_assignment_status : Time → Decoders → Request → String → Controller → Served
handle_assignment_status now json r caller c =
    if r.method == "POST"
    then (if has_suffix r.path "/status"
        then post_status now json r caller
            (trim_prefix (trim_suffix r.path "/status") "/assignments/") c
        else not_found c)
    else method_not_allowed c
