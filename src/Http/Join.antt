-- ===== src/Http/Join.antt =====
-- How a node joins (`handleJoin` of internal/controller/auth.go, `SignNodeCSR` of internal/pki/pki.go).
use k3_control_plane.Base.{
  String, true, ◌≡◌, refl, ap, ◌∙◌, some, ◌==◌, eq_iff, Option-cases, inl, inr, ◌⊎◌,
}
use k3_control_plane.Base.Strings.{cut_prefix}
use k3_control_plane.Controller.{Controller}
use k3_control_plane.Http.{
  Request, Served, Decoders, Decoded, decoded, malformed, decode_json, JoinRequest, Payload, cert,
  respond, http_error, method_not_allowed,
}
use k3_control_plane.Http.Auth.{
  Ca, CertificateRequest, Auth, node_cn, client_cert, certify, parse_and_certify, sign_node_csr,
  valid_node_id, sign_node, handle_join,
}
use k3_control_plane.Http.Changes.{branch}

-- The authority issued the certificate for the node's name.
abbrev pub IsIssuedFor : Ca → String → String → Type 0
IsIssuedFor ca node_id signed =
    (key : String) × (ca.create_certificate (node_cn node_id) key ≡ decoded signed)

-- What stands behind a certificate in a response to a join.
pub record Joined (auth : Auth) (json : Decoders) (r : Request) (signed : String) : Type 0 where
  pub request : JoinRequest
  pub secret : cut_prefix r.authorization "Bearer " ≡ some auth.join_secret
  pub body : json.decode_join r.body ≡ decoded request
  pub valid : valid_node_id request.node_id ≡ true
  pub issued : IsIssuedFor auth.ca request.node_id signed

text_of : Payload → String
text_of (cert s) = s
text_of _ = ""

cert_injective : (s t : String) → cert s ≡ cert t → s ≡ t
unfolding text_of
cert_injective s t h = ap text_of h

Decoded-cases :
    {A : Type 0} (d : Decoded A) → ((a : A) × (d ≡ decoded a)) ⊎ ((e : String) × (d ≡ malformed e))
Decoded-cases (decoded a) = inl (a, refl)
Decoded-cases (malformed e) = inr (e, refl)

client_cert-issued :
    (ca : Ca) (node_id key signed : String)
    → client_cert ca (node_cn node_id) key ≡ decoded signed
    → IsIssuedFor ca node_id signed
unfolding client_cert
client_cert-issued ca node_id key signed h =
    elim (Decoded-cases (ca.create_certificate (node_cn node_id) key)) [
      | inl (s, e) ↦ (key, e ∙ (rw (e, client_cert) at h))
      | inr (m, e) ↦ let h' = rw (e, client_cert) at h in cc
    ]

certify-issued :
    (ca : Ca) (node_id : String) (csr : CertificateRequest) (signed : String)
    → certify ca node_id csr ≡ decoded signed
    → IsIssuedFor ca node_id signed
unfolding certify
certify-issued ca node_id csr signed h = elim (Option-cases csr.signature_error) [
  | inl e ↦ client_cert-issued ca node_id csr.public_key signed (rw (e, certify) at h)
  | inr (m, e) ↦ let h' = rw (e, certify) at h in cc
]

parse_and_certify-issued :
    (ca : Ca) (node_id bytes signed : String)
    → parse_and_certify ca node_id bytes ≡ decoded signed
    → IsIssuedFor ca node_id signed
unfolding parse_and_certify
parse_and_certify-issued ca node_id bytes signed h = elim (Decoded-cases (ca.parse_csr bytes)) [
  | inl (csr, e) ↦ certify-issued ca node_id csr signed (rw (e, parse_and_certify) at h)
  | inr (m, e) ↦ let h' = rw (e, parse_and_certify) at h in cc
]

-- A property of both branches that says what follows from their result.
sign_node_csr-issued :
    (ca : Ca) (node_id csr signed : String)
    → sign_node_csr ca node_id csr ≡ decoded signed
    → IsIssuedFor ca node_id signed
unfolding sign_node_csr
sign_node_csr-issued ca node_id csr signed h = elim (Option-cases (ca.decode_pem csr)) [
  | inl e ↦ let h' = rw (e, sign_node_csr) at h in cc
  | inr ((kind, bytes), e) ↦
      branch (λ d. d ≡ decoded signed → IsIssuedFor ca node_id signed)
        (kind == "CERTIFICATE REQUEST") (λ _. parse_and_certify-issued ca node_id bytes signed)
        (λ _ h'. cc) (rw (e, sign_node_csr) at h)
]

-- A response to a join that carries a certificate stands only where the request held the join
-- secret, its body decodes to a request with a valid node ID, and the authority issued this
-- certificate for the name of that node.
pub handle_join-Joined :
    (auth : Auth) (json : Decoders) (r : Request) (c : Controller) (signed : String)
    → (handle_join auth json r c).1.payload ≡ cert signed
    → Joined auth json r signed
unfolding handle_join sign_node decode_json respond http_error method_not_allowed
handle_join-Joined auth json r c signed =
    let P : Served → Type 0 = λ out. out.1.payload ≡ cert signed → Joined auth json r signed in
    branch P (r.method == "POST")
      (λ _. elim (Option-cases (cut_prefix r.authorization "Bearer ")) [
        | inl e ↦ rw (e, handle_join) (λ h. cc)
        | inr (secret, e) ↦
            rw (e, handle_join)
              (branch P (secret == auth.join_secret)
                (λ same. elim (Decoded-cases (json.decode_join r.body)) [
                  | inr (m, bad) ↦ rw (bad, handle_join) (λ h. cc)
                  | inl (request, good) ↦
                      rw (good, handle_join)
                        (branch P (valid_node_id request.node_id)
                          (λ valid.
                            elim (Decoded-cases
                              (sign_node_csr auth.ca request.node_id request.csr)) [
                                | inr (m, bad) ↦ rw (bad, sign_node) (λ h. cc)
                                | inl (s, made) ↦
                                    rw (made, sign_node)
                                      (λ h. record {
                                        request = request;
                                        secret = e ∙ ap (λ x. some x) ((eq_iff _ _).0 same);
                                        body = good;
                                        valid = valid;
                                        issued =
                                            sign_node_csr-issued auth.ca request.node_id request.csr
                                              signed
                                              (made
                                                ∙ ap (λ x. decoded x) (cert_injective s signed h));
                                      })
                              ])
                          (λ _ h. cc))
                ])
                (λ _ h. cc))
      ])
      (λ _ h. cc)
