-- ===== src/Pki/Token.antt =====
-- internal/pki/token.go: the join token, printed and parsed.
pub mod Roundtrip
use k3_control_plane.Base.{
  ℕ, ◌+◌, String, Bool, true, false, not, ◌&&◌, ◌||◌, ◌==◌, ◌≡◌, ◌≢◌, refl, sym, ◌∙◌, ap, eq_iff,
  Option, none, some, arith, Bool-cases, inl, inr, nat_eq, leb, ltb, if◌then◌else◌,
}
use k3_control_plane.Base.Strings.{cut_prefix, cut, cut_prefix-append}
use Prim.Native.Char.{Char, code}
use Prim.Native.String
use Prim.Native.String.{◌++◌}

abbrev pub token_prefix : String
token_prefix = "K8"

pub record Token : Type 0 where
  pub ca_hash : String
  pub secret : String

unfoldable pub show_token : Token → String
show_token t = token_prefix ++ (t.ca_hash ++ ("::" ++ t.secret))

-- `unicode.IsSpace`
unfoldable pub is_space : Char → Bool
is_space x =
    let n = code x in
    (leb 9 n && leb n 13)
    || (nat_eq n 32
        || (nat_eq n 133
            || (nat_eq n 160
                || (nat_eq n 5760
                    || ((leb 8192 n && leb n 8202)
                        || (nat_eq n 8232
                            || (nat_eq n 8233
                                || (nat_eq n 8239 || (nat_eq n 8287 || nat_eq n 12288)))))))))

unfoldable pub trim_left : String → String
trim_left String.[] = ""
trim_left (String.◌∷◌ x s) = let rest = trim_left s in if is_space x then rest else String.◌∷◌ x s

unfoldable pub trim_right : String → String
trim_right String.[] = ""
trim_right (String.◌∷◌ x s) =
    let rest = trim_right s in if is_space x && rest == "" then "" else String.◌∷◌ x rest

-- `strings.TrimSpace`
unfoldable pub trim_space : String → String
trim_space s = trim_right (trim_left s)

-- The bytes of a character in UTF-8.
unfoldable pub utf8_len : Char → ℕ
utf8_len x =
    if ltb (code x) 128
    then 1
    else if ltb (code x) 2048
    then 2
    else if ltb (code x) 65536
    then 3
    else 4

-- `len` of a string.
unfoldable pub byte_length : String → ℕ
byte_length String.[] = 0
byte_length (String.◌∷◌ x s) = utf8_len x + byte_length s

unfoldable pub is_hex_digit : Char → Bool
is_hex_digit x =
    let n = code x in (leb 48 n && leb n 57) || ((leb 97 n && leb n 102) || (leb 65 n && leb n 70))

unfoldable pub all_hex : String → Bool
all_hex String.[] = true
all_hex (String.◌∷◌ x s) = is_hex_digit x && all_hex s

pub data ParseError : Type 0 where
  no_prefix : ParseError
  bad_shape : ParseError
  bad_hash : ParseError

pub data Parsed : Type 0 where
  parsed : Token → Parsed
  refused : ParseError → Parsed

-- The tests on the two parts. `hex.DecodeString` refuses an odd number of digits too, which 64 is not.
unfoldable pub check_parts : String → String → Parsed
check_parts hash secret =
    if not (nat_eq (byte_length hash) 64) || secret == ""
    then refused bad_shape
    else if all_hex hash
    then parsed (record { ca_hash = hash; secret = secret })
    else refused bad_hash

unfoldable pub parse_rest : String → Parsed
parse_rest rest = elim (cut rest "::") [
  | none ↦ refused bad_shape
  | some (hash, secret) ↦ check_parts hash secret
]

unfoldable pub parse_token : String → Parsed
parse_token raw = elim (cut_prefix (trim_space raw) token_prefix) [
  | none ↦ refused no_prefix
  | some rest ↦ parse_rest rest
]
