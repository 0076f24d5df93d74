-- ===== src/Pki/Stored.antt =====
-- `LoadOrCreateToken` of internal/pki/token.go: the join token in its file. The SHA-256 of the authority's
-- certificate, in hexadecimal, and the random secret are parameters.
pub mod Restart
use Prim.Native.String.{◌++◌}
use k3_control_plane.Base.{
  String, Bool, true, false, not, ◌&&◌, ◌==◌, Option, none, some, if◌then◌else◌,
}
use k3_control_plane.Base.Attempt.{attempt}
use k3_control_plane.Pki.Files.{Files, contents, absent, unreadable, owner_only, write_file}
use k3_control_plane.Pki.Token.{Token, parsed, refused, Parsed, parse_token, show_token}

pub record TokenSource (F : Type 0) : Type 0 where
  pub files : Files F
  -- `Fingerprint`
  pub fingerprint : String → String
  -- `rand.Read` of 32 bytes, in hexadecimal
  pub random_secret : Option String

-- The tests on the token that is stored.
unfoldable pub accept_token : String → String → Parsed → Option Token
accept_token want secret (refused e) = none
accept_token want secret (parsed token) =
    if not (token.ca_hash == want)
    then none
    else if not (secret == "") && not (secret == token.secret)
    then none
    else some token

-- The secret of the operator, or a random one.
unfoldable pub choose_secret : Option String → String → Option String
choose_secret random secret = if secret == "" then random else some secret

module _ {F : Type 0} (source : TokenSource F) where
  unfoldable pub create_token : String → String → String → F → F × Option Token
  create_token path want secret f = elim (choose_secret source.random_secret secret) [
    | none ↦ (f, none)
    | some chosen ↦
        let token : Token = record { ca_hash = want; secret = chosen } in
        attempt (write_file source.files path (show_token token ++ "\n") owner_only f)
          (λ g. (g, none)) (λ g. (g, some token))
  ]

  -- `none` for an error.
  unfoldable pub load_or_create_token : String → String → String → F → F × Option Token
  load_or_create_token path ca_pem secret f =
      let want = source.fingerprint ca_pem in
      elim (source.files.read_file path f) [
        | contents raw ↦ (f, accept_token want secret (parse_token raw))
        | unreadable ↦ (f, none)
        | absent ↦ create_token path want secret f
      ]
