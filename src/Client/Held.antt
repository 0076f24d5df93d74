-- ===== src/Client/Held.antt =====
-- Which credentials of internal/client/join.go the files of a node hold.
use k3_control_plane.Base.{
  String, ◌==◌, ◌-◌, ◌≡◌, ◌≢◌, refl, sym, ◌∙◌, ap, Option, none, some, Bool-cases, inl, inr, leb,
}
use mathlib.Core.Option.{none-ne-some, some-injective}
use k3_control_plane.Base.Attempt.{attempt_case}
use k3_control_plane.Api.{Time}
use k3_control_plane.Http.Auth.{node_cn}
use k3_control_plane.Pki.Files.{Read, contents, absent, unreadable, owner_only, write_file}
use k3_control_plane.Pki.Files.Atomic.{IsDisk, Read-cases, written}
use k3_control_plane.Client.{
  Machine, TlsConfig, or_fail, pool_from_pem, client_tls, check_stored, read_contents, renew_before,
  load_node_credentials, node_key,
}
use k3_control_plane.Client.Trusted.{or_fail_case}

module _ {F N Key : Type 0} (machine : Machine F N Key) where
  pub client_tls-some :
      (ca cert key : String) (tls : TlsConfig)
      → client_tls machine ca cert key ≡ some tls
      → (ca ≡ tls.root_ca) × (cert ≡ tls.certificate) × (key ≡ tls.key)
  unfolding client_tls pool_from_pem or_fail
  client_tls-some ca cert key tls h = elim (Bool-cases (machine.has_certificates ca)) [
    | inr e ↦ let h' : none ≡ some tls = rw e at h in absurd (none-ne-some tls h')
    | inl e ↦ elim (Bool-cases (machine.is_key_pair cert key)) [
      | inr k ↦ let h' : none ≡ some tls = rw (e, k) at h in absurd (none-ne-some tls h')
      | inl k ↦
          let made : TlsConfig = record { root_ca = ca; certificate = cert; key = key } in
          let h' : some made ≡ some tls = rw (e, k) at h in
          let same = some-injective made tls h' in
          (
            ap (λ (t : TlsConfig). t.root_ca) same,
            ap (λ (t : TlsConfig). t.certificate) same,
            ap (λ (t : TlsConfig). t.key) same,
          )
    ]
  ]

  pub check_stored-some :
      (node_id ca cert key : String) (now : Time) (tls : TlsConfig)
      → check_stored machine node_id now ca cert key ≡ some tls
      → client_tls machine ca cert key ≡ some tls
  unfolding check_stored
  check_stored-some node_id ca cert key now tls =
      let P : Option TlsConfig → Type 0 =
        λ o. o ≡ some tls → client_tls machine ca cert key ≡ some tls in
      or_fail_case P (machine.parse_cert cert) none _ (λ h. absurd (none-ne-some tls h))
        λ read _ h. elim (Bool-cases (read.common_name == node_cn node_id)) [
          | inr e ↦ let h' : none ≡ some tls = rw e at h in absurd (none-ne-some tls h')
          | inl e ↦ elim (Bool-cases (leb renew_before (read.not_after - now))) [
            | inr l ↦ let h' : none ≡ some tls = rw (e, l) at h in absurd (none-ne-some tls h')
            | inl l ↦ rw (e, l) at h
          ]
        ]

  module _ (law : IsDisk machine.files) where
    -- What a file that can be read gives.
    pub read-content :
        (f : F) (p text : String)
        → law.content f p ≡ some text
        → machine.files.read_file p f ≢ unreadable
        → read_contents (machine.files.read_file p f) ≡ some text
    unfolding read_contents
    read-content f p text there readable = go (machine.files.read_file p f) refl
      where
        go : (r : Read) → machine.files.read_file p f ≡ r → read_contents r ≡ some text
        go (contents other) e = sym (law.read_contents p f e) ∙ there
        go absent e = absurd (none-ne-some text (sym (law.read_absent p f e) ∙ there))
        go unreadable e = absurd (readable e)

    read_contents-content :
        (f : F) (p text : String)
        → read_contents (machine.files.read_file p f) ≡ some text
        → law.content f p ≡ some text
    unfolding read_contents
    read_contents-content f p text h = go (machine.files.read_file p f) refl h
      where
        go :
            (r : Read)
            → machine.files.read_file p f ≡ r
            → read_contents r ≡ some text
            → law.content f p ≡ some text
        go (contents other) e h' = law.read_contents p f e ∙ h'
        go absent e h' = absurd (none-ne-some text h')
        go unreadable e h' = absurd (none-ne-some text h')

    pub node_key-content :
        (path text : String) (f : F)
        → (node_key machine path f).1 ≡ some text
        → law.content (node_key machine path f).0 path ≡ some text
    unfolding node_key
    node_key-content path text f h = elim (Read-cases (machine.files.read_file path f)) [
      | inl (raw, e) ↦
          let h' : some raw ≡ some text = rw (e, node_key) at h in
          rw (e, node_key) (law.read_contents path f e ∙ h')
      | inr (inl e) ↦
          let h' : none ≡ some text = rw (e, node_key) at h in absurd (none-ne-some text h')
      | inr (inr e) ↦
          let P : F × Option String → Type 0 =
            λ out. out.1 ≡ some text → law.content out.0 path ≡ some text in
          let no : P (f, none) = λ h'. absurd (none-ne-some text h') in
          let result : P (node_key machine path f) =
            rw (e, node_key)
              (or_fail_case P machine.new_key (f, none) _ no
                λ key _.
                  or_fail_case P (machine.encode_key key) (f, none) _ no
                    λ made _.
                      attempt_case P (write_file machine.files path made owner_only f)
                        (λ g. (g, none)) (λ g. (g, some made))
                        (λ _ h'. absurd (none-ne-some text h'))
                        (λ ok h'. written machine.files law path made owner_only f ok ∙ h')) in
          result h
    ]

    module _ (ca_path cert_path key_path : String) where
      -- The three files hold the credentials.
      abbrev pub Holds : F → TlsConfig → Type 0
      Holds f tls =
          (law.content f ca_path ≡ some tls.root_ca)
          × (law.content f cert_path ≡ some tls.certificate)
          × (law.content f key_path ≡ some tls.key)
          × (client_tls machine tls.root_ca tls.certificate tls.key ≡ some tls)

      pub hold :
          (f : F) (ca cert key : String) (tls : TlsConfig)
          → law.content f ca_path ≡ some ca
          → law.content f cert_path ≡ some cert
          → law.content f key_path ≡ some key
          → client_tls machine ca cert key ≡ some tls
          → Holds f tls
      hold f ca cert key tls a b c h =
          let (ca_is, cert_is, key_is) = client_tls-some ca cert key tls h in
          (
            a ∙ ap some ca_is,
            b ∙ ap some cert_is,
            c ∙ ap some key_is,
            rw (ca_is, cert_is, key_is) at h,
          )

      pub load_node_credentials-Holds :
          (node_id : String) (now : Time) (f : F) (tls : TlsConfig)
          → load_node_credentials machine ca_path cert_path key_path node_id now f ≡ some tls
          → Holds f tls
      unfolding load_node_credentials
      load_node_credentials-Holds node_id now f tls =
          let P : Option TlsConfig → Type 0 = λ o. o ≡ some tls → Holds f tls in
          let no : P none = λ h. absurd (none-ne-some tls h) in
          or_fail_case P (read_contents (machine.files.read_file ca_path f)) none _ no λ ca a.
            or_fail_case P (read_contents (machine.files.read_file cert_path f)) none _ no λ cert b.
              or_fail_case P (read_contents (machine.files.read_file key_path f)) none _ no
                λ key c h.
                  hold f ca cert key tls (read_contents-content f ca_path ca a)
                    (read_contents-content f cert_path cert b)
                    (read_contents-content f key_path key c)
                    (check_stored-some node_id ca cert key now tls h)
