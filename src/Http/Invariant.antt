-- ===== src/Http/Invariant.antt =====
-- Every request keeps the store's invariant (internal/controller/handlers.go).
use k3_control_plane.Base.{
  arith, eq_iff, ◌≡◌, ◌≢◌, refl, inl, inr, Bool-cases, String, Bool, true, false, ◌||◌, ◌==◌,
  Option, none, some,
}
use k3_control_plane.Base.Strings.{has_suffix, trim_prefix, trim_suffix, contains}
use k3_control_plane.Api.{Time, Assignment}
use k3_control_plane.Store.{MemoryStore}
use k3_control_plane.Store.Admissible.{
  IsAdmissible, IsService, IsJob, upsert_service-IsAdmissible, upsert_job-IsAdmissible,
  delete_service-IsAdmissible, delete_job-IsAdmissible, upsert_node-IsAdmissible,
  touch_node-IsAdmissible, update_assignment_status-IsAdmissible,
}
use k3_control_plane.Base.Int.{pos, ltb_ℤ}
use k3_control_plane.Api.{Service, Job}
use k3_control_plane.Controller.{Controller}
use k3_control_plane.Http.{
  Request, Served, Decoders, respond, http_error, not_found, method_not_allowed, with_store,
}
use k3_control_plane.Http.Auth.{Auth}
use k3_control_plane.Http.Handlers.{
  default_service, handle_services, handle_jobs, post_service, remove_service, post_job, remove_job,
  deleted,
}
use k3_control_plane.Http.Nodes.{
  handle_node_register, handle_node_heartbeat, handle_assignment_status, post_status, report_status,
  register_node, heartbeat, touched, reported, is_agent_reportable_phase, owns_assignment,
}
use k3_control_plane.Http.Routes.{serve_http}
use k3_control_plane.Http.Changes.{branch, after_decode}
use k3_control_plane.Http.Cases.{serve_case}

-- The store is admissible, and the rest of the controller is as it was.
abbrev pub Keeps : Controller → Served → Type 0
Keeps c out =
    IsAdmissible out.0.store
    × (out.0.scheduler ≡ c.scheduler)
    × (out.0.node_timeout ≡ c.node_timeout)

deleted-Keeps :
    (message : String) (c : Controller) (out : MemoryStore × Bool)
    → IsAdmissible out.0
    → Keeps c (deleted message c out)
unfolding deleted respond http_error with_store
deleted-Keeps message c (s, true) h = (h, refl, refl)
deleted-Keeps message c (s, false) h = (h, refl, refl)

touched-Keeps :
    (c : Controller) (out : MemoryStore × Bool) → IsAdmissible out.0 → Keeps c (touched c out)
unfolding touched respond http_error with_store
touched-Keeps c (s, true) h = (h, refl, refl)
touched-Keeps c (s, false) h = (h, refl, refl)

reported-Keeps :
    (c : Controller) (out : MemoryStore × Option Assignment)
    → IsAdmissible out.0
    → Keeps c (reported c out)
unfolding reported respond http_error with_store
reported-Keeps c (s, none) h = (h, refl, refl)
reported-Keeps c (s, some a) h = (h, refl, refl)

-- What the tests of the handlers give.
default_service-IsService :
    (v : Service) → (v.name == "" || v.image == "") ≡ false → IsService (default_service v)
unfolding default_service
default_service-IsService v e = (
  λ h. ground (arith, e, (eq_iff v.name "").1 h),
  λ h. ground (arith, e, (eq_iff v.image "").1 h),
  elim (Bool-cases (ltb_ℤ (pos 0) v.replicas)) [
    | inl some_wanted ↦ rw (some_wanted, some_wanted) refl
    | inr e' ↦ rw e' refl
  ],
)

posted-IsJob : (j : Job) → (j.name == "" || j.image == "") ≡ false → IsJob j
posted-IsJob j e = (
  λ h. ground (arith, e, (eq_iff j.name "").1 h),
  λ h. ground (arith, e, (eq_iff j.image "").1 h),
)

own-HasId : (id n : String) → (id == n) ≡ true → (n == "") ≡ false → id ≢ ""
own-HasId id n e named h = ground (arith, named, eq_iff n "", (eq_iff id n).0 e, h)

module _ (json : Decoders) (now : Time) (r : Request) (n : String) (c : Controller)
    (h : IsAdmissible c.store) where
  services-Keeps : Keeps c (handle_services json r c)
  unfolding handle_services post_service remove_service respond http_error not_found
      method_not_allowed with_store
  services-Keeps =
      branch (Keeps c) (r.method == "GET")
        (λ _.
          branch (Keeps c) (r.path == "/services") (λ _. (h, refl, refl)) (λ _. (h, refl, refl)))
        λ _.
          branch (Keeps c) (r.method == "POST")
            (λ _.
              branch (Keeps c) (r.path == "/services")
                (λ _.
                  after_decode (Keeps c) (json.decode_service r.body) post_service c
                    (λ v.
                      branch (Keeps c) (v.name == "" || v.image == "") (λ _. (h, refl, refl))
                        (λ e. (
                          upsert_service-IsAdmissible c.store _ (default_service-IsService v e) h,
                          refl,
                          refl,
                        )))
                    (λ _. (h, refl, refl)))
                (λ _. (h, refl, refl)))
            λ _.
              branch (Keeps c) (r.method == "DELETE")
                (λ _.
                  let name = trim_prefix r.path "/services/" in
                  branch (Keeps c) (name == "" || contains name "/") (λ _. (h, refl, refl))
                    (λ _. deleted-Keeps _ c _ (delete_service-IsAdmissible c.store name h)))
                (λ _. (h, refl, refl))

  jobs-Keeps : Keeps c (handle_jobs json r c)
  unfolding handle_jobs post_job remove_job respond http_error not_found method_not_allowed
      with_store
  jobs-Keeps =
      branch (Keeps c) (r.method == "GET")
        (λ _. branch (Keeps c) (r.path == "/jobs") (λ _. (h, refl, refl)) (λ _. (h, refl, refl)))
        λ _.
          branch (Keeps c) (r.method == "POST")
            (λ _.
              branch (Keeps c) (r.path == "/jobs")
                (λ _.
                  after_decode (Keeps c) (json.decode_job r.body) post_job c
                    (λ j.
                      branch (Keeps c) (j.name == "" || j.image == "") (λ _. (h, refl, refl))
                        (λ e. (upsert_job-IsAdmissible c.store _ (posted-IsJob j e) h, refl, refl)))
                    (λ _. (h, refl, refl)))
                (λ _. (h, refl, refl)))
            λ _.
              branch (Keeps c) (r.method == "DELETE")
                (λ _.
                  let name = trim_prefix r.path "/jobs/" in
                  branch (Keeps c) (name == "" || contains name "/") (λ _. (h, refl, refl))
                    (λ _. deleted-Keeps _ c _ (delete_job-IsAdmissible c.store name h)))
                (λ _. (h, refl, refl))

  register-Keeps : (n == "") ≡ false → Keeps c (handle_node_register now json r n c)
  unfolding handle_node_register register_node respond http_error method_not_allowed with_store
  register-Keeps named =
      branch (Keeps c) (r.method == "POST")
        (λ _.
          after_decode (Keeps c) (json.decode_node r.body) (register_node now n) c
            (λ node.
              branch (Keeps c) (node.id == n)
                (λ e.
                  (upsert_node-IsAdmissible c.store _ (own-HasId node.id n e named) h, refl, refl))
                (λ _. (h, refl, refl)))
            (λ _. (h, refl, refl)))
        (λ _. (h, refl, refl))

  beat-Keeps : Keeps c (handle_node_heartbeat now json r n c)
  unfolding handle_node_heartbeat heartbeat http_error method_not_allowed
  beat-Keeps =
      branch (Keeps c) (r.method == "POST")
        (λ _.
          after_decode (Keeps c) (json.decode_heartbeat r.body) (heartbeat now n) c
            (λ payload.
              branch (Keeps c) (payload.id == n)
                (λ _. touched-Keeps c _ (touch_node-IsAdmissible c.store payload.id now h))
                (λ _. (h, refl, refl)))
            (λ _. (h, refl, refl)))
        (λ _. (h, refl, refl))

  status-Keeps : Keeps c (handle_assignment_status now json r n c)
  unfolding handle_assignment_status post_status report_status http_error not_found
      method_not_allowed
  status-Keeps =
      let id = trim_prefix (trim_suffix r.path "/status") "/assignments/" in
      branch (Keeps c) (r.method == "POST")
        (λ _.
          branch (Keeps c) (has_suffix r.path "/status")
            (λ _.
              branch (Keeps c) (id == "") (λ _. (h, refl, refl))
                (λ _.
                  after_decode (Keeps c) (json.decode_status r.body) (report_status now n id) c
                    (λ p.
                      branch (Keeps c) (is_agent_reportable_phase p.phase)
                        (λ _.
                          branch (Keeps c) (owns_assignment c.store n id)
                            (λ _. reported-Keeps c _ (
                              update_assignment_status-IsAdmissible c.store id p.phase p.message now
                                h))
                            (λ _. (h, refl, refl)))
                        (λ _. (h, refl, refl)))
                    (λ _. (h, refl, refl))))
            (λ _. (h, refl, refl)))
        (λ _. (h, refl, refl))

pub serve_http-Keeps :
    (auth : Auth) (json : Decoders) (now : Time) (r : Request) (c : Controller)
    → IsAdmissible c.store
    → Keeps c (serve_http auth json now r c)
serve_http-Keeps auth json now r c h =
    serve_case auth json now r c (Keeps c) (λ _. (h, refl, refl))
      (λ _. services-Keeps json now r "" c h) (λ _. jobs-Keeps json now r "" c h)
      (λ named. register-Keeps json now r _ c h named) (λ _. beat-Keeps json now r _ c h)
      (λ _. status-Keeps json now r _ c h)

-- Every request to the server, from anyone and with any body, keeps the store admissible: it is
-- well-formed; every service has a name and an image and wants a replica or more; every job has a
-- name and an image; every node has an ID; and of every assignment the time of the end is known
-- exactly when its phase is terminal, and the time of the start while it runs.
pub serve_http-IsAdmissible :
    (auth : Auth) (json : Decoders) (now : Time) (r : Request) (c : Controller)
    → IsAdmissible c.store
    → IsAdmissible (serve_http auth json now r c).0.store
serve_http-IsAdmissible auth json now r c h = (serve_http-Keeps auth json now r c h).0
