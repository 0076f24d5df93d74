-- ===== src/Client/Trusted.antt =====
-- What a node trusts that has joined.
use Prim.Native.String.{◌++◌}
use k3_control_plane.Base.{
  String, ◌==◌, ◌≡◌, refl, sym, ◌∙◌, ap, eq_iff, Option, none, some, Bool-cases, inl, inr, ◌⊎◌,
  Option-cases,
}
use mathlib.Core.Option.{none-ne-some, some-injective}
use k3_control_plane.Base.Attempt.{attempt_case}
use k3_control_plane.Api.{Time}
use k3_control_plane.Http.Auth.{node_cn}
use k3_control_plane.Pki.Token.{Token, Parsed, parsed, refused, parse_token}
use k3_control_plane.Client.{
  Machine, TlsConfig, or_fail, pool_from_pem, client_tls, check_pinned, fetch_pinned_ca, body_of,
  request_node_cert, node_key, store_credentials, join_cluster, join_with, bootstrap_node,
  trim_slashes, load_node_credentials,
}

pub or_fail_case :
    {A R : Type 0} (P : R → Type 0) (o : Option A) (fail : R) (next : A → R)
    → P fail
    → ((a : A) → o ≡ some a → P (next a))
    → P (or_fail o fail next)
unfolding or_fail
or_fail_case P none fail next f n = f
or_fail_case P (some a) fail next f n = n a refl

module _ {F N Key : Type 0} (machine : Machine F N Key) where
  -- The authority of the credentials is the one that the token pins.
  abbrev pub Pins : Token → Option TlsConfig → Type 0
  Pins token none = Unit
  Pins token (some tls) = machine.fingerprint tls.root_ca ≡ token.ca_hash

  client_tls-Pins :
      (token : Token) (ca cert key : String)
      → machine.fingerprint ca ≡ token.ca_hash
      → Pins token (client_tls machine ca cert key)
  unfolding client_tls pool_from_pem or_fail
  client_tls-Pins token ca cert key h = elim (Bool-cases (machine.has_certificates ca)) [
    | inr e ↦ rw e tt
    | inl e ↦ elim (Bool-cases (machine.is_key_pair cert key)) [
      | inl k ↦ rw (e, k) h
      | inr k ↦ rw (e, k) tt
    ]
  ]

  check_pinned-some :
      (want body ca : String)
      → check_pinned machine want body ≡ some ca
      → machine.fingerprint ca ≡ want
  unfolding check_pinned
  check_pinned-some want body ca h =
      let first = machine.first_bytes 65536 body in
      elim (Bool-cases (machine.fingerprint first == want)) [
        | inr e ↦ let h' : none ≡ some ca = rw e at h in absurd (none-ne-some ca h')
        | inl e ↦
            let h' : some first ≡ some ca = rw e at h in
            ap machine.fingerprint (sym (some-injective first ca h'))
            ∙ (eq_iff (machine.fingerprint first) want).0 e
      ]

  fetch_pinned_ca-some :
      (server want ca : String) (n : N)
      → (fetch_pinned_ca machine server want n).1 ≡ some ca
      → machine.fingerprint ca ≡ want
  unfolding fetch_pinned_ca
  fetch_pinned_ca-some server want ca n h =
      let answer = (machine.get_insecure (trim_slashes server ++ "/cacerts") n).1 in
      or_fail_case (λ o. o ≡ some ca → machine.fingerprint ca ≡ want) (body_of answer) none
        (check_pinned machine want) (λ h'. absurd (none-ne-some ca h'))
        (λ body _ h'. check_pinned-some want body ca h') h

  module _ (J : N → Type 0) where
    -- The join request of a token, over TLS that is verified by an authority of its fingerprint,
    -- keeps what is claimed of the network.
    abbrev pub Posts : String → Token → Type 0
    Posts server token =
        (ca body : String) (n : N)
        → machine.fingerprint ca ≡ token.ca_hash
        → J n
        → J
            (machine.post_verified (pool_from_pem machine ca) (trim_slashes server ++ "/nodes/join")
              ("Bearer " ++ token.secret) body n).0

    abbrev Safe : Token → (F × N) × Option TlsConfig → Type 0
    Safe token out = J out.0.1 × Pins token out.1

    -- What is held of the network, and where the credentials come from.
    abbrev pub Secured : Parsed → Option TlsConfig → F × N → (F × N) × Option TlsConfig → Type 0
    Secured p stored w out =
        J out.0.1
        × ((out.1 ≡ none)
            ⊎ (((out.0 ≡ w) × (out.1 ≡ stored))
                ⊎ ((token : Token) × (p ≡ parsed token) × Pins token out.1)))

    module _ (server : String)
        (gets : (n : N)
          → J n
          → J (machine.get_insecure (trim_slashes server ++ "/cacerts") n).0) where
      request_node_cert-Posts :
          (token : Token) (ca node_id csr : String) (n : N)
          → Posts server token
          → machine.fingerprint ca ≡ token.ca_hash
          → J n
          → J (request_node_cert machine server ca token.secret node_id csr n).0
      unfolding request_node_cert
      request_node_cert-Posts token ca node_id csr n posts pinned j =
          or_fail_case (λ (out : N × Option String). J out.0) (machine.encode_request node_id csr)
            (n, none) _ j λ body _. posts ca body n pinned j

      store_credentials-Safe :
          (token : Token) (ca_path cert_path ca cert key : String) (w : F × N)
          → machine.fingerprint ca ≡ token.ca_hash
          → J w.1
          → Safe token (store_credentials machine ca_path cert_path ca cert key w)
      unfolding store_credentials
      store_credentials-Safe token ca_path cert_path ca cert key (f, n) pinned j =
          attempt_case (Safe token) _ (λ g. ((g, n), none)) _ (λ _. (j, tt))
            λ _.
              attempt_case (Safe token) _ (λ h. ((h, n), none)) _ (λ _. (j, tt))
                λ _. (j, client_tls-Pins token ca cert key pinned)

      join_cluster-Safe :
          (token : Token) (node_id dir : String) (w : F × N)
          → Posts server token
          → J w.1
          → Safe token (join_cluster machine server token node_id dir w)
      unfolding join_cluster fetch_pinned_ca
      join_cluster-Safe token node_id dir (f, n) posts j =
          let fetched = fetch_pinned_ca machine server token.ca_hash n in
          let j' = gets n j in
          let made = node_key machine (machine.join_path dir "node.key") f in
          or_fail_case (Safe token) fetched.1 ((f, fetched.0), none) _ (j', tt)
            λ ca got.
              or_fail_case (Safe token) made.1 ((made.0, fetched.0), none) _ (j', tt)
                λ key_pem _.
                  or_fail_case (Safe token) (machine.parse_key key_pem) ((made.0, fetched.0), none)
                    _ (j', tt)
                    λ key _.
                      or_fail_case (Safe token) (machine.new_csr key (node_cn node_id))
                        ((made.0, fetched.0), none) _ (j', tt)
                        λ csr _.
                          let pinned = fetch_pinned_ca-some server token.ca_hash ca n got in
                          let sent =
                            request_node_cert machine server ca token.secret node_id csr
                              fetched.0 in
                          let j'' =
                            request_node_cert-Posts token ca node_id csr fetched.0 posts pinned
                              j' in
                          or_fail_case (Safe token) sent.1 ((made.0, sent.0), none) _ (j'', tt)
                            λ cert _.
                              store_credentials-Safe token _ _ ca cert key_pem (made.0, sent.0)
                                pinned j''

      joined :
          (p : Parsed) (stored : Option TlsConfig) (node_id dir : String) (w : F × N)
          → ((token : Token) → p ≡ parsed token → Posts server token)
          → J w.1
          → Secured p stored w (join_with machine server p node_id dir w)
      unfolding join_with
      joined (refused e) stored node_id dir w posts j = (j, inl refl)
      joined (parsed token) stored node_id dir (f, n) posts j =
          let P = Safe token in
          let (kept, pins) : P (join_with machine server (parsed token) node_id dir (f, n)) =
            attempt_case P (machine.make_directories dir f) (λ g. ((g, n), none)) _ (λ _. (j, tt))
              λ _. join_cluster-Safe token node_id dir _ (posts token refl) j in
          (kept, inr (inr (token, refl, pins)))

      -- The bootstrap of a node keeps whatever holds of the network that the insecure download of
      -- the authority keeps, and the join request with the token's secret when it is sent to a
      -- server verified by what `poolFromPEM` makes of an authority with the token's fingerprint.
      -- It ends with no credentials; or with the stored ones, and nothing has changed; or the
      -- token could be read, and the authority of the credentials has the fingerprint that it
      -- pins.
      pub bootstrap_node-Secured :
          (raw_token node_id dir : String) (now : Time) (w : F × N)
          → ((token : Token) → parse_token raw_token ≡ parsed token → Posts server token)
          → J w.1
          → Secured
              (parse_token raw_token)
              (load_node_credentials machine
                (machine.join_path dir "ca.crt")
                (machine.join_path dir "node.crt")
                (machine.join_path dir "node.key")
                node_id
                now
                w.0)
              w
              (bootstrap_node machine server raw_token node_id dir now w)
      unfolding bootstrap_node
      bootstrap_node-Secured raw_token node_id dir now w posts j =
          let stored =
            load_node_credentials machine (machine.join_path dir "ca.crt")
              (machine.join_path dir "node.crt") (machine.join_path dir "node.key") node_id now
              w.0 in
          elim (Option-cases stored) [
            | inr (tls, e) ↦ rw (e, bootstrap_node) (j, inr (inl (refl, refl)))
            | inl e ↦ elim (Bool-cases (raw_token == "")) [
              | inl empty ↦ rw (e, empty, bootstrap_node) (j, inl refl)
              | inr given ↦
                  rw (e, given, bootstrap_node)
                    (joined (parse_token raw_token) none node_id dir w posts j)
            ]
          ]
