-- ===== src/Http/Ownership.antt =====
-- Who may change what through the API (internal/controller/http.go, auth.go, handlers.go).
use k3_control_plane.Base.{String, true, ◌≡◌, ◌≢◌, refl, sym, ap, ◌∙◌, ◌==◌, eq_iff}
use k3_control_plane.Base.Strings.{
  cut_prefix, has_suffix, trim_prefix, trim_suffix, cut_prefix-append,
}
use k3_control_plane.Api.{Time}
use k3_control_plane.Store.Keyed.{IsKeyed}
use k3_control_plane.Controller.{Controller}
use k3_control_plane.Http.{Request, Decoders, http_error, not_found, method_not_allowed}
use k3_control_plane.Http.Auth.{Auth, admin_cn, node_prefix, node_cn, node_id_from_cn, caller_cn}
use k3_control_plane.Http.Nodes.{
  handle_node_register, handle_node_heartbeat, handle_assignment_status, post_status, report_status,
  register_node, heartbeat,
}
use k3_control_plane.Http.Routes.{serve_http}
use k3_control_plane.Http.Changes.{
  branch, after_decode, OwnChange, IsOwnChange, unchanged, register_node-OwnChange,
  heartbeat-OwnChange, report_status-OwnChange,
}
use k3_control_plane.Http.Cases.{serve_case}

-- The name of a node's certificate gives the node's ID back.
pub node_id_from_cn-node_cn : (n : String) → node_id_from_cn (node_cn n) ≡ n
unfolding node_id_from_cn node_cn
node_id_from_cn-node_cn n = rw (cut_prefix-append node_prefix n, node_id_from_cn) refl

module _ (json : Decoders) (now : Time) (r : Request) (n : String) (c : Controller) where
  register-OwnChange : OwnChange n c (handle_node_register now json r n c)
  unfolding handle_node_register http_error method_not_allowed
  register-OwnChange =
      branch (OwnChange n c) (r.method == "POST")
        (λ _.
          after_decode (OwnChange n c) (json.decode_node r.body) (register_node now n) c
            (λ node. register_node-OwnChange now n node c) (λ _. unchanged n c.store))
        (λ _. unchanged n c.store)

  beat-OwnChange : OwnChange n c (handle_node_heartbeat now json r n c)
  unfolding handle_node_heartbeat http_error method_not_allowed
  beat-OwnChange =
      branch (OwnChange n c) (r.method == "POST")
        (λ _.
          after_decode (OwnChange n c) (json.decode_heartbeat r.body) (heartbeat now n) c
            (λ payload. heartbeat-OwnChange now n payload c) (λ _. unchanged n c.store))
        (λ _. unchanged n c.store)

  status-OwnChange : IsKeyed c.store → OwnChange n c (handle_assignment_status now json r n c)
  unfolding handle_assignment_status post_status http_error not_found method_not_allowed
  status-OwnChange h =
      let id = trim_prefix (trim_suffix r.path "/status") "/assignments/" in
      branch (OwnChange n c) (r.method == "POST")
        (λ _.
          branch (OwnChange n c) (has_suffix r.path "/status")
            (λ _.
              branch (OwnChange n c) (id == "") (λ _. unchanged n c.store)
                (λ _.
                  after_decode (OwnChange n c) (json.decode_status r.body) (report_status now n id)
                    c (λ payload. report_status-OwnChange now n id payload c h)
                    (λ _. unchanged n c.store)))
            (λ _. unchanged n c.store))
        (λ _. unchanged n c.store)

-- A request with the certificate of node n, whatever its path, method and body, leaves the
-- services and the jobs alone, every other node, and every assignment on another node; it adds no
-- assignment, and a phase that it changes becomes one that agents may report. The store is
-- well-formed and n is not empty.
pub serve_http_node :
    (auth : Auth) (json : Decoders) (now : Time) (r : Request) (n : String) (c : Controller)
    → caller_cn r ≡ node_cn n
    → n ≢ ""
    → IsKeyed c.store
    → IsOwnChange n c.store (serve_http auth json now r c).0.store
unfolding node_id_from_cn cut_prefix
serve_http_node auth json now r n c e named h =
    let id : node_id_from_cn (caller_cn r) ≡ n = ap node_id_from_cn e ∙ node_id_from_cn-node_cn n in
    let no_admin : caller_cn r ≢ admin_cn = λ a. named (sym id ∙ ap node_id_from_cn a) in
    serve_case auth json now r c (OwnChange n c) (λ _. unchanged n c.store)
      (λ a. absurd (no_admin a)) (λ a. absurd (no_admin a))
      (λ _. rw id (register-OwnChange json now r n c)) (λ _. rw id (beat-OwnChange json now r n c))
      (λ _. rw id (status-OwnChange json now r n c h))

-- A request whose certificate is neither the administrator's nor a node's changes nothing in the
-- controller.
pub serve_http_stranger :
    (auth : Auth) (json : Decoders) (now : Time) (r : Request) (c : Controller)
    → caller_cn r ≢ admin_cn
    → node_id_from_cn (caller_cn r) ≡ ""
    → (serve_http auth json now r c).0 ≡ c
serve_http_stranger auth json now r c stranger e =
    let no_node : (node_id_from_cn (caller_cn r) == "") ≡ true = (eq_iff _ _).1 e in
    serve_case auth json now r c (λ out. out.0 ≡ c) (λ _. refl) (λ a. absurd (stranger a))
      (λ a. absurd (stranger a)) (λ f. cc) (λ f. cc) (λ f. cc)
