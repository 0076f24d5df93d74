-- ===== src/Client/Rejoined.antt =====
-- The agent that starts again finds the credentials of internal/client/join.go.
use Prim.Native.String.{◌++◌}
use k3_control_plane.Base.{
  String, ◌==◌, ◌-◌, ◌≡◌, ◌≢◌, refl, ◌∙◌, eq_iff, Option, none, some, Bool-cases, inl, inr,
  Option-cases, true, leb,
}
use mathlib.Core.Option.{none-ne-some}
use k3_control_plane.Base.Attempt.{attempt_case}
use k3_control_plane.Api.{Time}
use k3_control_plane.Http.Auth.{node_cn}
use k3_control_plane.Pki.Files.{unreadable, readable_by_all, write_file}
use k3_control_plane.Pki.Files.Atomic.{IsDisk, written, unwritten}
use k3_control_plane.Pki.Token.{Token, Parsed, parsed, refused, parse_token}
use k3_control_plane.Client.{
  Machine, TlsConfig, NodeCert, or_fail, check_stored, renew_before, load_node_credentials,
  node_key, fetch_pinned_ca, request_node_cert, store_credentials, join_cluster, join_with,
  bootstrap_node,
}
use k3_control_plane.Client.Trusted.{or_fail_case}
use k3_control_plane.Client.Held.{
  Holds, hold, read-content, node_key-content, load_node_credentials-Holds,
}

-- The files of the credentials, and the temporary ones, are different files.
pub record AreApart (ca_path cert_path key_path : String) : Type 0 where
  pub ca_cert : ca_path ≢ cert_path
  pub ca_cert_tmp : ca_path ≢ cert_path ++ ".tmp"
  pub key_ca : key_path ≢ ca_path
  pub key_ca_tmp : key_path ≢ ca_path ++ ".tmp"
  pub key_cert : key_path ≢ cert_path
  pub key_cert_tmp : key_path ≢ cert_path ++ ".tmp"

module _ {F N Key : Type 0} (machine : Machine F N Key) (law : IsDisk machine.files) (dir : String)
    (apart : AreApart
      (machine.join_path dir "ca.crt")
      (machine.join_path dir "node.crt")
      (machine.join_path dir "node.key")) where
  abbrev ca_path : String
  ca_path = machine.join_path dir "ca.crt"

  abbrev cert_path : String
  cert_path = machine.join_path dir "node.crt"

  abbrev key_path : String
  key_path = machine.join_path dir "node.key"

  -- Credentials that are returned stand in the files.
  abbrev Stores : (F × N) × Option TlsConfig → Type 0
  Stores out =
      (tls : TlsConfig)
      → out.1 ≡ some tls
      → Holds machine law ca_path cert_path key_path out.0.0 tls

  store_credentials-Stores :
      (ca cert key : String) (w : F × N)
      → law.content w.0 key_path ≡ some key
      → Stores (store_credentials machine ca_path cert_path ca cert key w)
  unfolding store_credentials
  store_credentials-Stores ca cert key (f, n) there =
      let g = write_file machine.files ca_path ca readable_by_all f in
      let h = write_file machine.files cert_path cert readable_by_all g.0 in
      attempt_case Stores g (λ g. ((g, n), none)) _ (λ _ tls e. absurd (none-ne-some tls e))
        λ ca_ok.
          attempt_case Stores h (λ h. ((h, n), none)) _ (λ _ tls e. absurd (none-ne-some tls e))
            λ cert_ok tls e.
              hold machine law ca_path cert_path key_path h.0 ca cert key tls
                (unwritten machine.files law cert_path cert readable_by_all g.0 ca_path
                    apart.ca_cert_tmp apart.ca_cert
                  ∙ written machine.files law ca_path ca readable_by_all f ca_ok)
                (written machine.files law cert_path cert readable_by_all g.0 cert_ok)
                (unwritten machine.files law cert_path cert readable_by_all g.0 key_path
                    apart.key_cert_tmp apart.key_cert
                  ∙ (unwritten machine.files law ca_path ca readable_by_all f key_path
                        apart.key_ca_tmp apart.key_ca
                      ∙ there))
                e

  join_cluster-Stores :
      (server node_id : String) (token : Token) (w : F × N)
      → Stores (join_cluster machine server token node_id dir w)
  unfolding join_cluster
  join_cluster-Stores server node_id token (f, n) =
      let fetched = fetch_pinned_ca machine server token.ca_hash n in
      let made = node_key machine key_path f in
      let no : (w : F × N) → Stores (w, none) = λ w tls e. absurd (none-ne-some tls e) in
      or_fail_case Stores fetched.1 ((f, fetched.0), none) _ (no (f, fetched.0))
        λ ca _.
          or_fail_case Stores made.1 ((made.0, fetched.0), none) _ (no (made.0, fetched.0))
            λ key_pem e.
              or_fail_case Stores (machine.parse_key key_pem) ((made.0, fetched.0), none) _
                (no (made.0, fetched.0))
                λ key _.
                  or_fail_case Stores (machine.new_csr key (node_cn node_id))
                    ((made.0, fetched.0), none) _ (no (made.0, fetched.0))
                    λ csr _.
                      let sent =
                        request_node_cert machine server ca token.secret node_id csr fetched.0 in
                      or_fail_case Stores sent.1 ((made.0, sent.0), none) _ (no (made.0, sent.0))
                        λ cert _.
                          store_credentials-Stores ca cert key_pem (made.0, sent.0)
                            (node_key-content machine law key_path key_pem f e)

  join_with-Stores :
      (server node_id : String) (p : Parsed) (w : F × N)
      → Stores (join_with machine server p node_id dir w)
  unfolding join_with
  join_with-Stores server node_id (refused e) w = λ tls h. absurd (none-ne-some tls h)
  join_with-Stores server node_id (parsed token) (f, n) =
      attempt_case Stores (machine.make_directories dir f) (λ g. ((g, n), none)) _
        (λ _ tls h. absurd (none-ne-some tls h)) λ _. join_cluster-Stores server node_id token _

  bootstrap_node-Stores :
      (server raw_token node_id : String) (now : Time) (w : F × N)
      → Stores (bootstrap_node machine server raw_token node_id dir now w)
  unfolding bootstrap_node
  bootstrap_node-Stores server raw_token node_id now w =
      elim (Option-cases
        (load_node_credentials machine ca_path cert_path key_path node_id now w.0)) [
          | inr (stored, e) ↦
              rw (e, bootstrap_node)
                λ tls h.
                  load_node_credentials-Holds machine law ca_path cert_path key_path node_id now w.0
                    tls (e ∙ h)
          | inl e ↦ elim (Bool-cases (raw_token == "")) [
            | inl empty ↦ rw (e, empty, bootstrap_node) λ tls h. absurd (none-ne-some tls h)
            | inr given ↦
                rw (e, given, bootstrap_node)
                  (join_with-Stores server node_id (parse_token raw_token) w)
          ]
        ]

  Holds-load_node_credentials :
      (node_id : String) (now : Time) (f : F) (tls : TlsConfig) (cert : NodeCert)
      → Holds machine law ca_path cert_path key_path f tls
      → ((p : String) → machine.files.read_file p f ≢ unreadable)
      → machine.parse_cert tls.certificate ≡ some cert
      → cert.common_name ≡ node_cn node_id
      → leb renew_before (cert.not_after - now) ≡ true
      → load_node_credentials machine ca_path cert_path key_path node_id now f ≡ some tls
  unfolding load_node_credentials check_stored or_fail
  Holds-load_node_credentials node_id now f tls cert (a, b, c, made) readable read named fresh =
      rw
        (
          read-content machine law f ca_path tls.root_ca a (readable ca_path),
          read-content machine law f cert_path tls.certificate b (readable cert_path),
          read-content machine law f key_path tls.key c (readable key_path),
          read,
          (eq_iff cert.common_name (node_cn node_id)).1 named,
          fresh,
        )
        made

  -- An agent that starts again, with any server and token, gets the credentials that the first
  -- start gave it, and changes neither files nor network, as long as the certificate is for the
  -- node and is valid for 30 days more, and the files can be read. The three files and their
  -- temporary ones are different files.
  pub bootstrap_node_again :
      (server raw_token node_id : String) (now : Time) (w : F × N) (tls : TlsConfig)
      → (bootstrap_node machine server raw_token node_id dir now w).1 ≡ some tls
      → ((p : String)
          → machine.files.read_file p
              (bootstrap_node machine server raw_token node_id dir now w).0.0
            ≢ unreadable)
      → (cert : NodeCert) → machine.parse_cert tls.certificate ≡ some cert
      → cert.common_name ≡ node_cn node_id
      → (server' raw_token' : String) (later : Time)
      → leb renew_before (cert.not_after - later) ≡ true
      → bootstrap_node machine server' raw_token' node_id dir later
          (bootstrap_node machine server raw_token node_id dir now w).0
        ≡ ((bootstrap_node machine server raw_token node_id dir now w).0, some tls)
  unfolding bootstrap_node
  bootstrap_node_again server raw_token node_id now w tls h readable cert read named server'
        raw_token' later fresh =
      let out = bootstrap_node machine server raw_token node_id dir now w in
      let held = bootstrap_node-Stores server raw_token node_id now w tls h in
      again server' raw_token' node_id later out.0 tls
        (Holds-load_node_credentials node_id later out.0.0 tls cert held readable read named fresh)
    where
      again :
          (server raw_token node_id : String) (now : Time) (w : F × N) (tls : TlsConfig)
          → load_node_credentials machine ca_path cert_path key_path node_id now w.0 ≡ some tls
          → bootstrap_node machine server raw_token node_id dir now w ≡ (w, some tls)
      again server raw_token node_id now w tls e = rw (e, bootstrap_node) refl
