-- ===== src/Http/Cases.antt =====
-- The requests that the server (internal/controller/http.go, auth.go) answers, case by case.
use k3_control_plane.Base.{String, false, ◌||◌, ◌≡◌, inl, inr, ◌==◌, eq_iff, Option-cases}
use k3_control_plane.Base.Strings.{cut_prefix, has_prefix, has_suffix, trim_prefix, trim_suffix}
use k3_control_plane.Api.{Time}
use k3_control_plane.Controller.{Controller}
use k3_control_plane.Http.{
  Request, Response, Served, Decoders, respond, http_error, not_found, method_not_allowed,
}
use k3_control_plane.Http.Auth.{
  Auth, admin_cn, node_id_from_cn, caller_cn, admin_only, node_only, handle_ca_certs, handle_join,
  sign_node, sign_node_csr, valid_node_id,
}
use k3_control_plane.Http.Handlers.{handle_services, handle_jobs, handle_nodes, handle_state}
use k3_control_plane.Http.Nodes.{
  handle_node_register, handle_node_heartbeat, handle_node_assignments, node_assignments,
  handle_assignment_status,
}
use k3_control_plane.Http.Routes.{route, serve_http, is_clean}
use k3_control_plane.Http.Changes.{branch, after_decode}

-- A property of what a request leaves holds of every request, if it holds where nothing is written and of
-- the handlers that write.
module _ (auth : Auth) (json : Decoders) (now : Time) (r : Request) (c : Controller)
    (P : Served → Type 0) (same : (out : Response) → P (c, out)) where
  join_case : P (handle_join auth json r c)
  unfolding handle_join sign_node respond http_error method_not_allowed
  join_case =
      branch P (r.method == "POST")
        (λ _. elim (Option-cases (cut_prefix r.authorization "Bearer ")) [
          | inl e ↦ rw (e, handle_join) (same _)
          | inr (secret, e) ↦
              rw (e, handle_join)
                (branch P (secret == auth.join_secret)
                  (λ _.
                    after_decode P (json.decode_join r.body) _ c
                      (λ req.
                        branch P (valid_node_id req.node_id)
                          (λ _.
                            after_decode P (sign_node_csr auth.ca req.node_id req.csr) _ c
                              (λ s. same _) (λ e. same _))
                          (λ _. same _))
                      (λ e. same _))
                  (λ _. same _))
        ])
        (λ _. same _)

  node_list_case : P (handle_node_assignments r (node_id_from_cn (caller_cn r)) c)
  unfolding handle_node_assignments node_assignments respond http_error not_found method_not_allowed
  node_list_case =
      branch P (r.method == "GET")
        (λ _.
          branch P (has_suffix r.path "/assignments")
            (λ _.
              let id = trim_prefix (trim_suffix r.path "/assignments") "/nodes/" in
              branch P (id == "") (λ _. same _)
                (λ _. branch P (id == node_id_from_cn (caller_cn r)) (λ _. same _) (λ _. same _)))
            (λ _. same _))
        (λ _. same _)

  admin_case :
      (next : Request → Controller → Served)
      → (caller_cn r ≡ admin_cn → P (next r c))
      → P (admin_only next r c)
  unfolding admin_only http_error
  admin_case next h =
      branch P (caller_cn r == admin_cn) (λ e. h ((eq_iff _ _).0 e))
        (λ _. branch P (caller_cn r == "") (λ _. same _) (λ _. same _))

  node_case :
      (next : Request → String → Controller → Served)
      → ((node_id_from_cn (caller_cn r) == "") ≡ false
          → P (next r (node_id_from_cn (caller_cn r)) c))
      → P (node_only next r c)
  unfolding node_only http_error
  node_case next h =
      branch P (node_id_from_cn (caller_cn r) == "")
        (λ _. branch P (caller_cn r == "") (λ _. same _) (λ _. same _)) h

  module _ (services : caller_cn r ≡ admin_cn → P (handle_services json r c))
      (jobs : caller_cn r ≡ admin_cn → P (handle_jobs json r c))
      (register : (node_id_from_cn (caller_cn r) == "") ≡ false
        → P (handle_node_register now json r (node_id_from_cn (caller_cn r)) c))
      (beat : (node_id_from_cn (caller_cn r) == "") ≡ false
        → P (handle_node_heartbeat now json r (node_id_from_cn (caller_cn r)) c))
      (status : (node_id_from_cn (caller_cn r) == "") ≡ false
        → P (handle_assignment_status now json r (node_id_from_cn (caller_cn r)) c)) where
    route_case : P (route auth json now r c)
    unfolding route handle_ca_certs handle_nodes handle_state respond http_error not_found
        method_not_allowed
    route_case =
        branch P (r.path == "/cacerts")
          (λ _. branch P (r.method == "GET") (λ _. same _) (λ _. same _))
          λ _.
            branch P (r.path == "/nodes/join") (λ _. join_case)
              λ _.
                branch P (r.path == "/services" || has_prefix r.path "/services/")
                  (λ _. admin_case (handle_services json) services)
                  λ _.
                    branch P (r.path == "/jobs" || has_prefix r.path "/jobs/")
                      (λ _. admin_case (handle_jobs json) jobs)
                      λ _.
                        branch P (r.path == "/nodes")
                          (λ _.
                            admin_case handle_nodes
                              (λ _. branch P (r.method == "GET") (λ _. same _) (λ _. same _)))
                          λ _.
                            branch P (r.path == "/state")
                              (λ _.
                                admin_case handle_state
                                  (λ _. branch P (r.method == "GET") (λ _. same _) (λ _. same _)))
                              λ _.
                                branch P (r.path == "/nodes/register")
                                  (λ _. node_case (handle_node_register now json) register)
                                  λ _.
                                    branch P (r.path == "/nodes/heartbeat")
                                      (λ _. node_case (handle_node_heartbeat now json) beat)
                                      λ _.
                                        branch P (has_prefix r.path "/nodes/")
                                          (λ _.
                                            node_case handle_node_assignments (λ _. node_list_case))
                                          λ _.
                                            branch P (has_prefix r.path "/assignments/")
                                              (λ _.
                                                node_case (handle_assignment_status now json)
                                                  status)
                                              λ _.
                                                branch P (r.path == "/assignments") (λ _. same _)
                                                  (λ _. same _)

    pub serve_case : P (serve_http auth json now r c)
    unfolding serve_http respond
    serve_case = branch P (is_clean r.path || r.method == "CONNECT") (λ _. route_case) (λ _. same _)
