-- ===== src/Pki/Stored/Restart.antt =====
-- The join token of internal/pki/token.go is the same after a restart of the controller.
use Prim.Native.Char.{Char}
use Prim.Native.String.{◌++◌}
use text.Mathlib.TextLemmas.{cons-append}
use mathlib.Core.Option.{some-injective, none-ne-some}
use k3_control_plane.Base.{
  String, true, false, eq_iff, ◌≡◌, ◌≢◌, refl, sym, ap, ◌∙◌, subst, Option, none, some, inl, inr,
  ◌⊎◌, Option-cases, arith,
}
use k3_control_plane.Base.Attempt.{attempt_case}
use k3_control_plane.Pki.Files.{contents, unreadable, owner_only, write_file}
use k3_control_plane.Pki.Files.Atomic.{IsDisk, Read-cases, written}
use k3_control_plane.Pki.Token.{
  Token, Parsed, parsed, refused, parse_token, show_token, trim_right, trim_space, is_space,
  all_hex, byte_length,
}
use k3_control_plane.Pki.Token.Roundtrip.{parse_token-show_token, trim_left-cons}
use k3_control_plane.Pki.Stored.{
  TokenSource, accept_token, choose_secret, create_token, load_or_create_token,
}

-- A line end is trimmed.
trim_right-line : (s : String) → trim_right (s ++ "\n") ≡ trim_right s
unfolding trim_right is_space
trim_right-line String.[] = refl
trim_right-line (String.◌∷◌ c s) = rw (cons-append c s "\n") (rw (trim_right-line s) refl)

trim_space-line :
    (c : Char) (s : String)
    → is_space c ≡ false
    → trim_space (String.◌∷◌ c s ++ "\n") ≡ trim_space (String.◌∷◌ c s)
unfolding trim_space
trim_space-line c s e =
    rw
      (
        cons-append c s "\n",
        trim_left-cons c (s ++ "\n") e,
        trim_left-cons c s e,
        sym (cons-append c s "\n"),
      )
      (trim_right-line (String.◌∷◌ c s))

parse_token-line : (t : Token) → parse_token (show_token t ++ "\n") ≡ parse_token (show_token t)
unfolding parse_token show_token is_space
parse_token-line t =
    let tail = t.ca_hash ++ ("::" ++ t.secret) in
    let shown = cons-append "K" "8" tail in
    let trimmed : trim_space (("K8" ++ tail) ++ "\n") ≡ trim_space ("K8" ++ tail) =
      rw shown (trim_space-line "K" ("8" ++ tail) refl) in
    rw (trimmed, parse_token) refl

accepted :
    (want secret : String) (token t : Token)
    → accept_token want secret (parsed token) ≡ some t
    → (token.ca_hash ≡ want) × (token ≡ t)
unfolding accept_token
accepted want secret token t h = (ground (arith, h, eq_iff token.ca_hash want), ground (arith, h))

accept_stored :
    (want again : String) (t : Token)
    → t.ca_hash ≡ want
    → (again ≡ "") ⊎ (again ≡ t.secret)
    → accept_token want again (parsed t) ≡ some t
unfolding accept_token
accept_stored want again t pinned same =
    ground (arith, pinned, same, eq_iff t.ca_hash want, eq_iff again "", eq_iff again t.secret)

-- What the second start makes of the token that the first one has taken.
accept_again :
    (want secret again : String) (p : Parsed) (t : Token)
    → accept_token want secret p ≡ some t
    → (again ≡ "") ⊎ (again ≡ t.secret)
    → accept_token want again p ≡ some t
unfolding accept_token
accept_again want secret again (refused e) t h same = cc
accept_again want secret again (parsed token) t h same =
    let (pinned, is_t) = accepted want secret token t h in
    subst (λ u. accept_token want again (parsed u) ≡ some t) (sym is_t)
      (accept_stored want again t (ap (λ (u : Token). u.ca_hash) (sym is_t) ∙ pinned) same)

module _ {F : Type 0} (source : TokenSource F) (law : IsDisk source.files)
    (path ca_pem : String) where
  abbrev want : String
  want = source.fingerprint ca_pem

  -- A token that is created stands in the file.
  created :
      (secret : String) (f : F) (t : Token)
      → (create_token source path want secret f).1 ≡ some t
      → (law.content (create_token source path want secret f).0 path ≡ some (show_token t ++ "\n"))
        × (t.ca_hash ≡ want)
  unfolding create_token
  created secret f t h = elim (Option-cases (choose_secret source.random_secret secret)) [
    | inl no_secret ↦ let h' : none ≡ some t = rw (no_secret, create_token) at h in absurd cc
    | inr (chosen, e) ↦
        let token : Token = record { ca_hash = want; secret = chosen } in
        let line = show_token token ++ "\n" in
        let P : F × Option Token → Type 0 = λ out.
          out.1 ≡ some t
          → (law.content out.0 path ≡ some (show_token t ++ "\n")) × (t.ca_hash ≡ want) in
        let result : P (create_token source path want secret f) =
          rw (e, create_token)
            (attempt_case P (write_file source.files path line owner_only f) (λ g. (g, none))
              (λ g. (g, some token)) (λ _ h'. absurd cc)
              (λ ok h'.
                let is_t = some-injective token t h' in
                (
                  written source.files law path line owner_only f ok
                      ∙ ap (λ u. some (show_token u ++ "\n")) is_t,
                  ap (λ (u : Token). u.ca_hash) (sym is_t),
                ))) in
        result h
  ]

  loaded :
      (again : String) (f : F) (raw : String) (t : Token)
      → source.files.read_file path f ≡ contents raw
      → accept_token want again (parse_token raw) ≡ some t
      → (load_or_create_token source path ca_pem again f).1 ≡ some t
  unfolding load_or_create_token
  loaded again f raw t e h = rw (e, load_or_create_token) h

  -- A token that the controller has loaded or created is the one that it loads at the next start
  -- with the same authority, whether no secret is given then or the same one. The hash of the
  -- authority is 64 hexadecimal digits, the secret is not empty and has no space at its end, and
  -- the file can be read.
  pub load_or_create_token_again :
      (secret again : String) (f : F) (t : Token)
      → (load_or_create_token source path ca_pem secret f).1 ≡ some t
      → all_hex (source.fingerprint ca_pem) ≡ true
      → byte_length (source.fingerprint ca_pem) ≡ 64
      → t.secret ≢ ""
      → trim_right t.secret ≡ t.secret
      → source.files.read_file path (load_or_create_token source path ca_pem secret f).0
        ≢ unreadable
      → (again ≡ "") ⊎ (again ≡ t.secret)
      → (load_or_create_token source path ca_pem again
          (load_or_create_token source path ca_pem secret f).0).1
        ≡ some t
  unfolding load_or_create_token create_token
  load_or_create_token_again secret again f t h hex len filled trimmed readable same =
      elim (Read-cases (source.files.read_file path f)) [
        | inl (raw, e) ↦
            let run : load_or_create_token source path ca_pem secret f
                ≡ (f, accept_token want secret (parse_token raw)) =
              rw (e, load_or_create_token) refl in
            let taken : accept_token want secret (parse_token raw) ≡ some t = rw run at h in
            rw run (
              loaded again f raw t e
                (accept_again want secret again (parse_token raw) t taken same))
        | inr (inl e) ↦ let h' : none ≡ some t = rw (e, load_or_create_token) at h in absurd cc
        | inr (inr e) ↦
            let run : load_or_create_token source path ca_pem secret f
                ≡ create_token source path want secret f =
              rw (e, load_or_create_token) refl in
            let f' = (create_token source path want secret f).0 in
            let readable' : source.files.read_file path f' ≢ unreadable = rw run at readable in
            let (stored, pinned) = created secret f t (rw run at h) in
            rw run (elim (Read-cases (source.files.read_file path f')) [
              | inr (inl failed) ↦ absurd (readable' failed)
              | inr (inr gone) ↦
                  absurd (none-ne-some _ (sym (law.read_absent path f' gone) ∙ stored))
              | inl (raw, r) ↦
                  let raw_is = some-injective raw _ (sym (law.read_contents path f' r) ∙ stored) in
                  let read =
                    ap parse_token raw_is
                    ∙ (parse_token-line t
                        ∙ parse_token-show_token t (ap all_hex pinned ∙ hex)
                            (ap byte_length pinned ∙ len) filled trimmed) in
                  loaded again f' raw t r
                    (ap (accept_token want again) read ∙ accept_stored want again t pinned same)
            ])
      ]
