-- ===== src/Client.antt =====
-- internal/client/join.go: how a node gets its credentials, with `clientTLS` of internal/client/config.go.
--
-- Cryptography, JSON, directories and the network are parameters: the record `Machine`. An error is `none`.
pub mod Trusted
pub mod Held
pub mod Rejoined
use Prim.Native.Char.{code}
use Prim.Native.String
use Prim.Native.String.{◌++◌}
use k3_control_plane.Base.{
  ℕ, ◌*◌, ◌-◌, String, Bool, true, false, not, ◌&&◌, ◌==◌, Option, none, some, nat_eq, leb,
  if◌then◌else◌,
}
use k3_control_plane.Base.Attempt.{attempt}
use k3_control_plane.Api.{Time}
use k3_control_plane.Http.Auth.{node_cn}
use k3_control_plane.Pki.Files.{
  Files, Read, contents, absent, unreadable, owner_only, readable_by_all, write_file,
}
use k3_control_plane.Pki.Token.{Token, Parsed, parsed, refused, parse_token}

-- Of a certificate, what is read here.
pub record NodeCert : Type 0 where
  pub common_name : String
  pub not_after : Time

-- `tls.Config`: the authority that servers are verified against, and the own certificate with its key.
pub record TlsConfig : Type 0 where
  pub root_ca : String
  pub certificate : String
  pub key : String

-- A response has a status, and a body if it can be read.
pub data Answer : Type 0 where
  no_answer : Answer
  answered : ℕ → Option String → Answer

pub record Machine (F N Key : Type 0) : Type 0 where
  pub files : Files F
  -- `os.MkdirAll`, and whether there was no error
  pub make_directories : String → F → F × Bool
  -- `filepath.Join`
  pub join_path : String → String → String
  -- A GET without verification of the server.
  pub get_insecure : String → N → N × Answer
  -- A POST to a server that is verified: the authority (`none` for those of the host, which a missing
  -- `RootCAs` stands for), the URL, the header Authorization and the body.
  pub post_verified : Option String → String → String → String → N → N × Answer
  pub parse_cert : String → Option NodeCert
  -- `AppendCertsFromPEM`
  pub has_certificates : String → Bool
  -- Whether `tls.X509KeyPair` takes the certificate with the key.
  pub is_key_pair : String → String → Bool
  pub fingerprint : String → String
  pub new_key : Option Key
  pub encode_key : Key → Option String
  pub parse_key : String → Option Key
  pub new_csr : Key → String → Option String
  -- The JSON of the request, and the certificate in the JSON of the response.
  pub encode_request : String → String → Option String
  pub decode_response : String → Option String
  -- `io.LimitReader`: the first bytes of a text
  pub first_bytes : ℕ → String → String

-- `if err != nil { return nil, err }`
unfoldable pub or_fail : {A R : Type 0} → Option A → R → (A → R) → R
or_fail none fail next = fail
or_fail (some a) fail next = next a

-- `strings.TrimRight(s, "/")`
unfoldable pub trim_slashes : String → String
trim_slashes String.[] = ""
trim_slashes (String.◌∷◌ c s) =
    let rest = trim_slashes s in if nat_eq (code c) 47 && rest == "" then "" else String.◌∷◌ c rest

-- The body of a response with status 200.
unfoldable pub body_of : Answer → Option String
body_of no_answer = none
body_of (answered status body) = if nat_eq status 200 then body else none

unfoldable pub read_contents : Read → Option String
read_contents (contents text) = some text
read_contents absent = none
read_contents unreadable = none

-- 30 days
abbrev pub renew_before : ℕ
renew_before = 30 * 24 * 3600 * 1000000000

module _ {F N Key : Type 0} (machine : Machine F N Key) where
  unfoldable pub pool_from_pem : String → Option String
  pool_from_pem ca = if machine.has_certificates ca then some ca else none

  unfoldable pub client_tls : String → String → String → Option TlsConfig
  client_tls ca cert key = or_fail (pool_from_pem ca) none λ pool.
      if machine.is_key_pair cert key
      then some (record { root_ca = pool; certificate = cert; key = key })
      else none

  -- The tests on the certificate that is stored.
  unfoldable pub check_stored : String → Time → String → String → String → Option TlsConfig
  check_stored node_id now ca cert key = or_fail (machine.parse_cert cert) none λ read.
      if not (read.common_name == node_cn node_id)
      then none
      else if not (leb renew_before (read.not_after - now))
      then none
      else client_tls ca cert key

  unfoldable pub load_node_credentials :
      String → String → String → String → Time → F → Option TlsConfig
  load_node_credentials ca_path cert_path key_path node_id now f =
      or_fail (read_contents (machine.files.read_file ca_path f)) none λ ca.
        or_fail (read_contents (machine.files.read_file cert_path f)) none λ cert.
          or_fail (read_contents (machine.files.read_file key_path f)) none
            λ key. check_stored node_id now ca cert key

  -- The authority that was downloaded, if it is the one of the token.
  unfoldable pub check_pinned : String → String → Option String
  check_pinned want body =
      let ca = machine.first_bytes 65536 body in
      if machine.fingerprint ca == want then some ca else none

  unfoldable pub fetch_pinned_ca : String → String → N → N × Option String
  fetch_pinned_ca server want n =
      let out = machine.get_insecure (trim_slashes server ++ "/cacerts") n in
      (out.0, or_fail (body_of out.1) none (check_pinned want))

  unfoldable pub request_node_cert :
      String → String → String → String → String → N → N × Option String
  request_node_cert server ca secret node_id csr n =
      or_fail (machine.encode_request node_id csr) (n, none)
        λ body.
          let out =
            machine.post_verified (pool_from_pem ca) (trim_slashes server ++ "/nodes/join")
              ("Bearer " ++ secret) body n in
          (out.0, or_fail (body_of out.1) none machine.decode_response)

  -- The key of the node, made if there is none.
  unfoldable pub node_key : String → F → F × Option String
  node_key path f = elim (machine.files.read_file path f) [
    | contents text ↦ (f, some text)
    | unreadable ↦ (f, none)
    | absent ↦
        or_fail machine.new_key (f, none)
          λ key.
            or_fail (machine.encode_key key) (f, none)
              λ text.
                attempt (write_file machine.files path text owner_only f) (λ g. (g, none))
                  (λ g. (g, some text))
  ]

  -- From the writing of the credentials on.
  unfoldable pub store_credentials :
      String → String → String → String → String → F × N → (F × N) × Option TlsConfig
  store_credentials ca_path cert_path ca cert key (f, n) =
      attempt (write_file machine.files ca_path ca readable_by_all f) (λ g. ((g, n), none))
        λ g.
          attempt (write_file machine.files cert_path cert readable_by_all g) (λ h. ((h, n), none))
            λ h. ((h, n), client_tls ca cert key)

  -- From the download of the authority on.
  unfoldable pub join_cluster :
      String → Token → String → String → F × N → (F × N) × Option TlsConfig
  join_cluster server token node_id dir (f, n) =
      let fetched = fetch_pinned_ca server token.ca_hash n in
      or_fail fetched.1 ((f, fetched.0), none)
        λ ca.
          let made = node_key (machine.join_path dir "node.key") f in
          or_fail made.1 ((made.0, fetched.0), none)
            λ key_pem.
              or_fail (machine.parse_key key_pem) ((made.0, fetched.0), none)
                λ key.
                  or_fail (machine.new_csr key (node_cn node_id)) ((made.0, fetched.0), none)
                    λ csr.
                      let sent = request_node_cert server ca token.secret node_id csr fetched.0 in
                      or_fail sent.1 ((made.0, sent.0), none)
                        λ cert.
                          store_credentials (machine.join_path dir "ca.crt")
                            (machine.join_path dir "node.crt") ca cert key_pem (made.0, sent.0)

  -- From the parsing of the token on.
  unfoldable pub join_with : String → Parsed → String → String → F × N → (F × N) × Option TlsConfig
  join_with server (refused e) node_id dir w = (w, none)
  join_with server (parsed token) node_id dir (f, n) =
      attempt (machine.make_directories dir f) (λ g. ((g, n), none))
        λ g. join_cluster server token node_id dir (g, n)

  unfoldable pub bootstrap_node :
      String → String → String → String → Time → F × N → (F × N) × Option TlsConfig
  bootstrap_node server raw_token node_id dir now w =
      elim (load_node_credentials (machine.join_path dir "ca.crt")
        (machine.join_path dir "node.crt") (machine.join_path dir "node.key") node_id now w.0) [
          | some stored ↦ (w, some stored)
          | none ↦
              if raw_token == ""
              then (w, none)
              else join_with server (parse_token raw_token) node_id dir w
        ]
