-- ===== src/Pki/Files/Atomic.antt =====
-- `WriteFile` of internal/pki/pki.go leaves a file as it was, or writes it whole.
use Prim.Native.String.{◌++◌}
use k3_control_plane.Base.{
  ℕ, String, Bool, true, false, ◌≡◌, ◌≢◌, refl, sym, ◌∙◌, Option, none, some, inl, inr, ◌⊎◌,
  Bool-cases, ◌==◌, eq_iff, arith,
}
use k3_control_plane.Base.Strings.{append_longer}
use k3_control_plane.Base.Attempt.{attempt_case}
use k3_control_plane.Pki.Files.{
  Files, contents, absent, close_and_fail, write_file, Read, unreadable,
}

-- What is relied on: the content of each file, `none` where there is none.
pub record IsDisk {F : Type 0} (files : Files F) : Type 0 where
  pub content : F → String → Option String
  pub read_contents :
      (p : String) (f : F) {bytes : String}
      → files.read_file p f ≡ contents bytes
      → content f p ≡ some bytes
  pub read_absent : (p : String) (f : F) → files.read_file p f ≡ absent → content f p ≡ none
  pub open_ok :
      (q : String) (perm : ℕ) (f : F)
      → (files.open_empty q perm f).1 ≡ true
      → content (files.open_empty q perm f).0 q ≡ some ""
  pub open_others :
      (q : String) (perm : ℕ) (f : F) (p : String)
      → p ≢ q
      → content (files.open_empty q perm f).0 p ≡ content f p
  pub write_ok :
      (q bytes : String) (f : F)
      → content f q ≡ some ""
      → (files.write q bytes f).1 ≡ true
      → content (files.write q bytes f).0 q ≡ some bytes
  pub write_others :
      (q bytes : String) (f : F) (p : String)
      → p ≢ q
      → content (files.write q bytes f).0 p ≡ content f p
  pub sync_keeps : (q : String) (f : F) (p : String) → content (files.sync q f).0 p ≡ content f p
  pub close_keeps : (q : String) (f : F) (p : String) → content (files.close q f).0 p ≡ content f p
  pub rename_ok :
      (old new : String) (f : F)
      → (files.rename old new f).1 ≡ true
      → content (files.rename old new f).0 new ≡ content f old
  pub rename_failed :
      (old new : String) (f : F)
      → (files.rename old new f).1 ≡ false
      → (p : String) → content (files.rename old new f).0 p ≡ content f p
  pub rename_others :
      (old new : String) (f : F) (p : String)
      → p ≢ old
      → p ≢ new
      → content (files.rename old new f).0 p ≡ content f p

pub Read-cases :
    (r : Read) → ((raw : String) × (r ≡ contents raw)) ⊎ ((r ≡ unreadable) ⊎ (r ≡ absent))
Read-cases (contents raw) = inl (raw, refl)
Read-cases unreadable = inr (inl refl)
Read-cases absent = inr (inr refl)

pub path_apart : (path : String) → path ≢ path ++ ".tmp"
path_apart path e = append_longer path ".tmp" (λ e'. cc) (sym e)

module _ {F : Type 0} (files : Files F) (law : IsDisk files) (path bytes : String) (perm : ℕ)
    (f : F) where
  abbrev temporary : String
  temporary = path ++ ".tmp"

  -- The file is written, or an error leaves it as it was; no other file but the temporary one changes.
  abbrev pub IsWritten : String → F × Bool → Type 0
  IsWritten p out =
      ((law.content out.0 p ≡ law.content f p) × ((out.1 ≡ false) ⊎ (p ≢ path)))
      ⊎ ((out.1 ≡ true) × (p ≡ path) × (law.content out.0 path ≡ some bytes))

  -- Whatever call fails, the writing of a file leaves it as it was and reports an error, or
  -- reports none and leaves the whole new content; every other file but the temporary one is as
  -- it was.
  pub write_file-IsWritten :
      (p : String) → p ≢ temporary → IsWritten p (write_file files path bytes perm f)
  unfolding write_file
  write_file-IsWritten p apart =
      let opened = (files.open_empty temporary perm f).0 in
      let o = law.open_others temporary perm f p apart in
      let written = (files.write temporary bytes opened).0 in
      let w = law.write_others temporary bytes opened p apart ∙ o in
      let synced = (files.sync temporary written).0 in
      let s = law.sync_keeps temporary written p ∙ w in
      let closed = (files.close temporary synced).0 in
      let c = law.close_keeps temporary synced p ∙ s in
      attempt_case (IsWritten p) (files.open_empty temporary perm f) (λ g. (g, false)) _
        (λ _. inl (o, inl refl))
        λ empty.
          attempt_case (IsWritten p) (files.write temporary bytes opened)
            (close_and_fail files temporary) _
            (λ _. inl (law.close_keeps temporary written p ∙ w, inl refl))
            λ filled.
              attempt_case (IsWritten p) (files.sync temporary written)
                (close_and_fail files temporary) _
                (λ _. inl (law.close_keeps temporary synced p ∙ s, inl refl))
                λ _.
                  attempt_case (IsWritten p) (files.close temporary synced) (λ g. (g, false))
                    (files.rename temporary path) (λ _. inl (c, inl refl))
                    λ _.
                      let there =
                        law.close_keeps temporary synced temporary
                        ∙ (law.sync_keeps temporary written temporary
                            ∙ law.write_ok temporary bytes opened
                                (law.open_ok temporary perm f empty) filled) in
                      elim (Bool-cases (files.rename temporary path closed).1) [
                        | inr failed ↦
                            inl (law.rename_failed temporary path closed failed p ∙ c, inl failed)
                        | inl ok ↦ elim (Bool-cases (p == path)) [
                          | inl e ↦ inr (
                            ok,
                            (eq_iff p path).0 e,
                            law.rename_ok temporary path closed ok ∙ there,
                          )
                          | inr e ↦
                              let other : p ≢ path =
                                λ same. ground (arith, e, (eq_iff p path).1 same) in
                              inl (
                                law.rename_others temporary path closed p apart other ∙ c,
                                inr other,
                              )
                        ]
                      ]

module _ {F : Type 0} (files : Files F) (law : IsDisk files) where
  -- A file that is reported written has the new content.
  pub written :
      (path bytes : String) (perm : ℕ) (f : F)
      → (write_file files path bytes perm f).1 ≡ true
      → law.content (write_file files path bytes perm f).0 path ≡ some bytes
  written path bytes perm f ok =
      elim (write_file-IsWritten files law path bytes perm f path (path_apart path)) [
        | inl (_, inl failed) ↦ absurd cc
        | inl (_, inr other) ↦ absurd (other refl)
        | inr (_, _, stored) ↦ stored
      ]

  pub unwritten :
      (path bytes : String) (perm : ℕ) (f : F) (p : String)
      → p ≢ path ++ ".tmp"
      → p ≢ path
      → law.content (write_file files path bytes perm f).0 p ≡ law.content f p
  unwritten path bytes perm f p apart other =
      elim (write_file-IsWritten files law path bytes perm f p apart) [
        | inl (same, _) ↦ same
        | inr (_, is_path, _) ↦ absurd (other is_path)
      ]
