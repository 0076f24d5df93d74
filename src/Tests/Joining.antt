-- ===== src/Tests/Joining.antt =====
-- A node that joins (internal/client/join.go) over a disk in memory, and starts again.
use Prim.Native.String.{◌++◌}
use mathlib.Core.Bool.{false≢true}
use k3_control_plane.Base.{
  String, Bool, true, false, ◌&&◌, ◌==◌, eq_iff, ◌≡◌, ◌≢◌, refl, sym, ◌∙◌, ap, Option, none, some,
  Bool-cases, inl, inr, if◌then◌else◌,
}
use k3_control_plane.Base.Attempt.{attempt}
use k3_control_plane.Http.Auth.{node_cn}
use k3_control_plane.Pki.Files.{write_file, unreadable}
use k3_control_plane.Pki.Token.{Token, Parsed, parsed, refused, show_token, parse_token}
use k3_control_plane.Pki.Token.Roundtrip.{parse_token-show_token}
use k3_control_plane.Client.{
  Machine, TlsConfig, answered, or_fail, trim_slashes, body_of, renew_before, read_contents,
  pool_from_pem, client_tls, load_node_credentials, check_pinned, fetch_pinned_ca,
  request_node_cert, node_key, store_credentials, join_cluster, join_with, bootstrap_node,
}
use k3_control_plane.Client.Trusted.{Secured, Posts, bootstrap_node-Secured}
use k3_control_plane.Client.Rejoined.{AreApart, bootstrap_node_again}
use k3_control_plane.Tests.Tokens.{
  token, Disk, disk, disk_law, empty_disk, all_digits, digits, tight, some_secret, read,
}

-- The network is whether the secret has gone to no other authority than "ca".
abbrev Network : Type 0
Network = Bool

abbrev is_ours : Option String → Bool
is_ours none = false
is_ours (some ca) = ca == "ca"

abbrev fingerprint_of : String → String
fingerprint_of pem = if pem == "ca" then token.ca_hash else ""

abbrev machine : Machine Disk Network String
machine = record {
  files = disk;
  make_directories = λ dir f. (f, true);
  join_path = λ dir name. dir ++ name;
  get_insecure = λ url n. (n, answered 200 (some "ca"));
  post_verified = λ pool url header body n. (n && is_ours pool, answered 200 (some "cert"));
  parse_cert = λ pem. some (record { common_name = node_cn "n1"; not_after = renew_before });
  has_certificates = λ pem. true;
  is_key_pair = λ cert key. true;
  fingerprint = fingerprint_of;
  new_key = some "key";
  encode_key = λ key. some key;
  parse_key = λ pem. some pem;
  new_csr = λ key cn. some cn;
  encode_request = λ node_id csr. some csr;
  decode_response = λ body. some body;
  first_bytes = λ n s. s;
}

abbrev KeptSecret : Network → Type 0
KeptSecret n = n ≡ true

ours : (ca : String) → fingerprint_of ca ≡ token.ca_hash → (ca == "ca") ≡ true
ours ca e = elim (Bool-cases (ca == "ca")) [
  | inl same ↦ same
  | inr other ↦
      let empty : "" ≡ token.ca_hash = rw other at e in
      absurd (false≢true ((eq_iff "" token.ca_hash).1 empty))
]

parse_shown : parse_token (show_token token) ≡ parsed token
parse_shown = parse_token-show_token token all_digits digits some_secret tight

abbrev hash_of : Parsed → String
hash_of (parsed t) = t.ca_hash
hash_of (refused e) = ""

posts :
    (t : Token)
    → parse_token (show_token token) ≡ parsed t
    → Posts machine KeptSecret "https://controller/" t
unfolding pool_from_pem
posts t e ca body n pinned kept = rw kept (ours ca (pinned ∙ ap hash_of (sym e ∙ parse_shown)))

abbrev begun : (Disk × Network) × Option TlsConfig
begun = bootstrap_node machine "https://controller/" (show_token token) "n1" "" 0 (empty_disk, true)

bootstrap_node-Secured_example :
    Secured machine KeptSecret
      (parse_token (show_token token))
      (load_node_credentials machine "ca.crt" "node.crt" "node.key" "n1" 0 empty_disk)
      (empty_disk, true)
      begun
bootstrap_node-Secured_example =
    bootstrap_node-Secured machine KeptSecret "https://controller/" (λ n kept. kept)
      (show_token token) "n1" "" 0 (empty_disk, true) posts refl

abbrev credentials : TlsConfig
credentials = record { root_ca = "ca"; certificate = "cert"; key = "key" }

has_joined : begun.1 ≡ some credentials
unfolding bootstrap_node load_node_credentials or_fail read_contents join_with attempt join_cluster
    fetch_pinned_ca check_pinned body_of trim_slashes request_node_cert node_key store_credentials
    client_tls pool_from_pem write_file show_token
has_joined = rw parse_shown refl

differ : (a b : String) → (a == b) ≡ false → a ≢ b
differ a b e same = false≢true (sym e ∙ (eq_iff a b).1 same)

apart : AreApart "ca.crt" "node.crt" "node.key"
apart = record {
  ca_cert = differ _ _ refl;
  ca_cert_tmp = differ _ _ refl;
  key_ca = differ _ _ refl;
  key_ca_tmp = differ _ _ refl;
  key_cert = differ _ _ refl;
  key_cert_tmp = differ _ _ refl;
}

readable-read : (o : Option String) → read o ≢ unreadable
readable-read none e = cc
readable-read (some bytes) e = cc

bootstrap_node_again_example :
    bootstrap_node machine "" "" "n1" "" 0 begun.0 ≡ (begun.0, some credentials)
bootstrap_node_again_example =
    bootstrap_node_again machine disk_law "" apart "https://controller/" (show_token token) "n1" 0
      (empty_disk, true) credentials has_joined (λ p. readable-read (begun.0.0 p))
      (record { common_name = node_cn "n1"; not_after = renew_before }) refl refl "" "" 0 refl
