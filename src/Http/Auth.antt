-- ===== src/Http/Auth.antt =====
-- internal/controller/auth.go, with the names of internal/pki/pki.go that it reads: who may call what,
-- and how a node joins.
use k3_control_plane.Base.{
  ℕ, zero, suc, String, Bool, true, false, ◌&&◌, ◌||◌, ◌==◌, none, some, [], ◌∷◌, leb, nat_eq,
  if◌then◌else◌,
}
use k3_control_plane.Base.Strings.{cut_prefix}
use k3_control_plane.Controller.{Controller}
use k3_control_plane.Base.{Option}
use k3_control_plane.Http.{decoded, malformed}
use k3_control_plane.Http.{
  Request, Served, respond, http_error, method_not_allowed, pem, cert, Decoders, Decoded,
  decode_json, JoinRequest,
}
use Prim.Native.Char.{Char, code}
use Prim.Native.String.{◌++◌}

-- pki.go

abbrev pub admin_cn : String
admin_cn = "k8:admin"

abbrev pub node_prefix : String
node_prefix = "k8:node:"

unfoldable pub node_cn : String → String
node_cn node_id = node_prefix ++ node_id

-- A name that is the prefix alone has "" left, which is no node's ID.
unfoldable pub node_id_from_cn : String → String
node_id_from_cn cn = elim (cut_prefix cn node_prefix) [ none ↦ "" | some id ↦ id ]

-- What a certificate request says, and the error of its signature, if there is one.
pub record CertificateRequest : Type 0 where
  pub public_key : String
  pub signature_error : Option String

-- `CA`, with what it uses of encoding/pem and crypto/x509: the type and the bytes of a block, the
-- request in it, and the certificate, in PEM, for a name and a public key.
pub record Ca : Type 0 where
  pub pem : String
  pub decode_pem : String → Option (String × String)
  pub parse_csr : String → Decoded CertificateRequest
  pub create_certificate : String → String → Decoded String

unfoldable pub client_cert : Ca → String → String → Decoded String
client_cert ca cn public_key = elim (ca.create_certificate cn public_key) [
  | decoded signed ↦ decoded signed
  | malformed e ↦ malformed ("issue client cert for " ++ (cn ++ (": " ++ e)))
]

-- From the test of the signature on.
unfoldable pub certify : Ca → String → CertificateRequest → Decoded String
certify ca node_id csr = elim csr.signature_error [
  | some e ↦ malformed ("csr signature: " ++ e)
  | none ↦ client_cert ca (node_cn node_id) csr.public_key
]

unfoldable pub parse_and_certify : Ca → String → String → Decoded String
parse_and_certify ca node_id bytes = elim (ca.parse_csr bytes) [
  | malformed e ↦ malformed ("parse csr: " ++ e)
  | decoded csr ↦ certify ca node_id csr
]

unfoldable pub sign_node_csr : Ca → String → String → Decoded String
sign_node_csr ca node_id csr = elim (ca.decode_pem csr) [
  | none ↦ malformed "expected a PEM certificate request"
  | some block ↦
      let (kind, bytes) = block in
      if kind == "CERTIFICATE REQUEST"
      then parse_and_certify ca node_id bytes
      else malformed "expected a PEM certificate request"
]

-- auth.go

-- `Auth`
pub record Auth : Type 0 where
  pub ca : Ca
  pub join_secret : String

unfoldable pub caller_cn : Request → String
caller_cn r = elim r.verified_chains [
  | none ↦ ""
  | some [] ↦ ""
  | some ([] ∷ _) ↦ ""
  | some ((cn ∷ _) ∷ _) ↦ cn
]

unfoldable pub admin_only : (Request → Controller → Served) → Request → Controller → Served
admin_only next r c =
    if caller_cn r == admin_cn
    then next r c
    else if caller_cn r == ""
    then http_error "client certificate required" 401 c
    else http_error "admin only" 403 c

unfoldable pub node_only : (Request → String → Controller → Served) → Request → Controller → Served
node_only next r c =
    if node_id_from_cn (caller_cn r) == ""
    then (if caller_cn r == ""
        then http_error "client certificate required" 401 c
        else http_error "node credentials required" 403 c)
    else next r (node_id_from_cn (caller_cn r)) c

unfoldable pub handle_ca_certs : Auth → Request → Controller → Served
handle_ca_certs auth r c =
    if r.method == "GET" then respond 200 (pem auth.ca.pem) c else method_not_allowed c

-- `[a-z0-9]`
unfoldable pub is_lower_or_digit : Char → Bool
is_lower_or_digit x = (leb 97 (code x) && leb (code x) 122) || (leb 48 (code x) && leb (code x) 57)

-- `[a-z0-9.-]{0,61}[a-z0-9]`, with at most `room` more characters before the last one.
unfoldable pub matches_tail : ℕ → String → Bool
matches_tail room String.[] = false
matches_tail room (String.◌∷◌ x String.[]) = is_lower_or_digit x
matches_tail zero (String.◌∷◌ x (String.◌∷◌ y s)) = false
matches_tail (suc room) (String.◌∷◌ x (String.◌∷◌ y s)) =
    (is_lower_or_digit x || (nat_eq (code x) 46 || nat_eq (code x) 45))
    && matches_tail room (String.◌∷◌ y s)

-- `^[a-z0-9]([a-z0-9.-]{0,61}[a-z0-9])?$`
unfoldable pub valid_node_id : String → Bool
valid_node_id String.[] = false
valid_node_id (String.◌∷◌ x s) =
    is_lower_or_digit x && (if s == "" then true else matches_tail 61 s)

-- An error of the signature is answered as one of the body is.
unfoldable pub sign_node : Auth → JoinRequest → Controller → Served
sign_node auth req c =
    decode_json (sign_node_csr auth.ca req.node_id req.csr) (λ s. respond 200 (cert s)) c

unfoldable pub handle_join : Auth → Decoders → Request → Controller → Served
handle_join auth json r c =
    if r.method == "POST"
    then elim (cut_prefix r.authorization "Bearer ") [
      | none ↦ http_error "invalid join token" 401 c
      | some secret ↦
          if secret == auth.join_secret
          then decode_json (json.decode_join r.body)
              (λ req c'.
                if valid_node_id req.node_id
                then sign_node auth req c'
                else http_error "node id must be a lowercase DNS label" 400 c')
              c
          else http_error "invalid join token" 401 c
    ]
    else method_not_allowed c
