-- ===== src/Pki/Token/Roundtrip.antt =====
-- `Token.String` and `ParseToken` (internal/pki/token.go) are inverse to one another.
use Prim.Native.Char.{Char}
use Prim.Native.String.{◌++◌}
use text.Mathlib.TextLemmas.{nil-append, cons-append, append-ne-nil_of_right_ne-nil}
use k3_control_plane.Base.{
  String, true, false, ◌==◌, ◌≡◌, ◌≢◌, refl, sym, ◌∙◌, ap, eq_iff, none, some, arith, Bool-cases,
  inl, inr,
}
use k3_control_plane.Base.Strings.{cut_prefix, cut, cut_prefix-append}
use k3_control_plane.Pki.Token.{
  token_prefix, Token, show_token, is_space, trim_left, trim_right, trim_space, byte_length,
  is_hex_digit, all_hex, parsed, check_parts, parse_rest, parse_token,
}

cut_of_prefix :
    (s sep : String) {after : String} → cut_prefix s sep ≡ some after → cut s sep ≡ some ("", after)
unfolding cut
cut_of_prefix String.[] sep e = rw (e, cut) refl
cut_of_prefix (String.◌∷◌ c s) sep e = rw (e, cut) refl

-- No hexadecimal digit starts the separator.
hex_no_separator :
    (c : Char) (s : String) → is_hex_digit c ≡ true → cut_prefix (String.◌∷◌ c s) "::" ≡ none
unfolding is_hex_digit cut_prefix
hex_no_separator c s h = ground (arith, h)

cut-hex :
    (hash secret : String)
    → all_hex hash ≡ true
    → cut (hash ++ ("::" ++ secret)) "::" ≡ some (hash, secret)
unfolding all_hex cut
cut-hex String.[] secret h =
    rw (nil-append ("::" ++ secret))
      (cut_of_prefix ("::" ++ secret) "::" (cut_prefix-append "::" secret))
cut-hex (String.◌∷◌ c hash) secret h =
    let digit : is_hex_digit c ≡ true = ground (arith, h) in
    let rest : all_hex hash ≡ true = ground (arith, h) in
    rw (cons-append c hash ("::" ++ secret))
      (rw (hex_no_separator c (hash ++ ("::" ++ secret)) digit, cut-hex hash secret rest, cut) refl)

-- Space is cut off the end of the last part alone.
trim_right-append : (s t : String) → trim_right t ≡ t → t ≢ "" → trim_right (s ++ t) ≡ s ++ t
unfolding trim_right
trim_right-append String.[] t e n = rw (nil-append t) e
trim_right-append (String.◌∷◌ c s) t e n =
    let some_left : ((s ++ t) == "") ≡ false = elim (Bool-cases ((s ++ t) == "")) [
      | inl empty ↦ absurd (append-ne-nil_of_right_ne-nil s n ((eq_iff _ _).0 empty))
      | inr e' ↦ e'
    ] in
    rw (cons-append c s t) (rw (trim_right-append s t e n, some_left, trim_right) (ground arith))

pub trim_left-cons :
    (c : Char) (s : String) → is_space c ≡ false → trim_left (String.◌∷◌ c s) ≡ String.◌∷◌ c s
unfolding trim_left
trim_left-cons c s e = ground (arith, e)

-- The first character of a token is no space.
trim_space-show :
    (s : String) → trim_right ("K8" ++ s) ≡ "K8" ++ s → trim_space ("K8" ++ s) ≡ "K8" ++ s
unfolding trim_space trim_left is_space
trim_space-show s e =
    let q = cons-append "K" "8" s in
    let k : trim_left ("K8" ++ s) ≡ "K8" ++ s =
      ap trim_left q ∙ (trim_left-cons "K" ("8" ++ s) refl ∙ sym q) in
    rw (k, trim_space) e

-- A join token whose hash is 64 hexadecimal digits, and whose secret is not empty and has no
-- space at its end, is parsed back from its text.
pub parse_token-show_token :
    (t : Token)
    → all_hex t.ca_hash ≡ true
    → byte_length t.ca_hash ≡ 64
    → t.secret ≢ ""
    → trim_right t.secret ≡ t.secret
    → parse_token (show_token t) ≡ parsed t
unfolding parse_token show_token parse_rest check_parts
parse_token-show_token t hex len filled trimmed =
    let tail = t.ca_hash ++ ("::" ++ t.secret) in
    let trimmed₁ = trim_right-append "::" t.secret trimmed filled in
    let filled₁ = append-ne-nil_of_right_ne-nil "::" filled in
    let trimmed₂ = trim_right-append t.ca_hash _ trimmed₁ filled₁ in
    let filled₂ = append-ne-nil_of_right_ne-nil t.ca_hash filled₁ in
    let trimmed₃ = trim_space-show tail (trim_right-append "K8" tail trimmed₂ filled₂) in
    rw (trimmed₃, cut_prefix-append token_prefix tail, parse_token)
      (rw (cut-hex t.ca_hash t.secret hex, parse_rest)
        (ground (arith, len, hex, filled, eq_iff t.secret "")))
