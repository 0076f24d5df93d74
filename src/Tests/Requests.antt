-- ===== src/Tests/Requests.antt =====
-- Requests to the server (internal/controller).
use Prim.Native.String.{◌++◌}
use mathlib.Core.Bool.{false≢true}
use k3_control_plane.Base.{
  false, ◌==◌, sym, ◌∙◌, String, ◌≡◌, ◌≢◌, refl, some, List, [], ◌∷◌, eq_iff,
}
use k3_control_plane.Base.Strings.{cut_prefix}
use k3_control_plane.Api.Phases.{failed, pending, is_terminal_phase, phase_eq}
use k3_control_plane.Api.{Assignment}
use k3_control_plane.Base.Every.{Every-empty, Every-entry}
use k3_control_plane.Store.Admissible.{IsAdmissible, HasId, IsService, IsJob, IsTimed}
use k3_control_plane.Controller.{Controller}
use k3_control_plane.Base.{none}
use k3_control_plane.Http.{Request, Decoders, decoded}
use k3_control_plane.Http.Auth.{Auth, admin_cn, node_cn, node_id_from_cn, caller_cn}
use k3_control_plane.Http.{cert, decode_json, respond}
use k3_control_plane.Http.Auth.{
  handle_join, sign_node, sign_node_csr, parse_and_certify, certify, client_cert, valid_node_id,
  is_lower_or_digit, matches_tail,
}
use k3_control_plane.Http.Join.{Joined, handle_join-Joined}
use k3_control_plane.Http.Routes.{serve_http}
use k3_control_plane.Http.Changes.{IsOwnChange}
use k3_control_plane.Http.Ownership.{serve_http_node, serve_http_stranger}
use k3_control_plane.Http.Invariant.{serve_http-IsAdmissible}
use k3_control_plane.Tests.Data.{
  node_at, web, batch, live_replica, cluster, controller_of, one-IsKeyed,
}

-- A server that decodes every body to the same values.
abbrev pub json : Decoders
json = record {
  decode_service = λ s. decoded web;
  decode_job = λ s. decoded batch;
  decode_node = λ s. decoded (node_at "a" 0);
  decode_heartbeat = λ s. decoded (record { id = "a" });
  decode_status = λ s. decoded (record { phase = failed; message = "exit 1" });
  decode_join = λ s. decoded (record { node_id = "c"; csr = "key" });
}

abbrev pub auth : Auth
auth = record {
  ca = record {
    pem = "pem";
    decode_pem = λ csr. some ("CERTIFICATE REQUEST", csr);
    parse_csr = λ bytes. decoded (record { public_key = bytes; signature_error = none });
    create_certificate = λ cn key. decoded (cn ++ (" " ++ key));
  };
  join_secret = "secret";
}

abbrev c : Controller
c = controller_of (cluster (live_replica ∷ []))

-- A report of a phase by the client with the name.
abbrev report_of : List (List String) → Request
report_of chains = record {
  method = "POST";
  path = "/assignments/web-1-a/status";
  authorization = "";
  verified_chains = some chains;
  body = "{}";
}

abbrev from_node : Request
from_node = report_of (("k8:node:a" ∷ []) ∷ [])

named : caller_cn from_node ≡ node_cn "a"
unfolding caller_cn node_cn
named = refl

abbrev empty_name : ◌≢◌ {A = String} "a" ""
empty_name = λ e. false≢true ((eq_iff "a" "").1 e)

serve_http_node_example : IsOwnChange "a" c.store (serve_http auth json 100 from_node c).0.store
serve_http_node_example =
    serve_http_node auth json 100 from_node "a" c named empty_name (one-IsKeyed live_replica)

no_admin : caller_cn (report_of []) ≢ admin_cn
unfolding caller_cn
no_admin = λ e. false≢true ((eq_iff "" "k8:admin").1 e)

no_node : node_id_from_cn (caller_cn (report_of [])) ≡ ""
unfolding caller_cn node_id_from_cn cut_prefix
no_node = refl

serve_http_stranger_example : (serve_http auth json 100 (report_of []) c).0 ≡ c
serve_http_stranger_example = serve_http_stranger auth json 100 (report_of []) c no_admin no_node

-- The replica has not started yet.
abbrev starting : Assignment
starting = record live_replica { phase = pending }

abbrev waiting : Controller
waiting = controller_of (cluster (starting ∷ []))

not_empty : (s : String) → (s == "") ≡ false → s ≢ ""
not_empty s e h = false≢true (sym e ∙ (eq_iff s "").1 h)

waiting-IsAdmissible : IsAdmissible waiting.store
unfolding is_terminal_phase phase_eq
waiting-IsAdmissible = record {
  keyed = one-IsKeyed starting;
  nodes =
      Every-entry HasId "a" _ _ (not_empty _ refl)
        (Every-entry HasId "b" _ _ (not_empty _ refl) (Every-empty HasId));
  services =
      Every-entry IsService "web" web _ (not_empty _ refl, not_empty _ refl, refl)
        (Every-empty IsService);
  jobs = Every-entry IsJob "batch" batch _ (not_empty _ refl, not_empty _ refl) (Every-empty IsJob);
  assignments =
      Every-entry IsTimed "web-1-a" starting _ (refl, λ e. absurd (false≢true e))
        (Every-empty IsTimed);
}

serve_http-IsAdmissible_example : IsAdmissible (serve_http auth json 100 from_node waiting).0.store
serve_http-IsAdmissible_example =
    serve_http-IsAdmissible auth json 100 from_node waiting waiting-IsAdmissible

abbrev joining : Request
joining = record {
  method = "POST";
  path = "/nodes/join";
  authorization = "Bearer secret";
  verified_chains = some [];
  body = "{}";
}

certified : (handle_join auth json joining c).1.payload ≡ cert "k8:node:c key"
unfolding handle_join sign_node sign_node_csr parse_and_certify certify client_cert node_cn
    valid_node_id is_lower_or_digit matches_tail cut_prefix decode_json respond
certified = refl

handle_join-Joined_example : Joined auth json joining "k8:node:c key"
handle_join-Joined_example = handle_join-Joined auth json joining c "k8:node:c key" certified
