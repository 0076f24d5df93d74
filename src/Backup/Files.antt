-- ===== src/Backup/Files.antt =====
-- What the backups (internal/store/backup.go) rely on of the operating system.
use mathlib.Core.Option.{none-ne-some}
use k3_control_plane.Base.{
  String, true, false, ◌≡◌, ◌≢◌, refl, sym, ap, ◌∙◌, Option, none, some, List, inl, inr, ◌⊎◌, In,
  AllPairs, Bool-cases, ◌==◌, eq_iff, arith,
}
use k3_control_plane.Backup.{Location, Os, missing, is_backup_name, sync_file}

-- The content of each file, `none` where there is none. A call that fails changes nothing but the file
-- that it was to write.
pub record IsFileSystem {F Data : Type 0} (os : Os F Data) : Type 0 where
  pub content : F → Location → Option Data
  pub mkdir_keeps :
      (dir : String) (f : F) (p : Location) → content (os.mkdir_all dir f).0 p ≡ content f p
  pub sync_keeps : (q : Location) (f : F) (p : Location) → content (os.sync q f).0 p ≡ content f p
  pub remove_ok :
      (q : Location) (f : F) → (os.remove q f).1 ≡ true → content (os.remove q f).0 q ≡ none
  pub remove_failed :
      (q : Location) (f : F) → (os.remove q f).1 ≡ false → content (os.remove q f).0 q ≡ content f q
  pub remove_others :
      (q : Location) (f : F) (p : Location) → p ≢ q → content (os.remove q f).0 p ≡ content f p
  pub rename_ok :
      (old new : Location) (f : F)
      → (os.rename old new f).1 ≡ true
      → content (os.rename old new f).0 new ≡ content f old
  pub rename_moves :
      (old new : Location) (f : F)
      → old ≢ new
      → (os.rename old new f).1 ≡ true
      → content (os.rename old new f).0 old ≡ none
  pub rename_failed :
      (old new : Location) (f : F)
      → (os.rename old new f).1 ≡ false
      → (p : Location) → content (os.rename old new f).0 p ≡ content f p
  pub rename_others :
      (old new : Location) (f : F) (p : Location)
      → p ≢ old
      → p ≢ new
      → content (os.rename old new f).0 p ≡ content f p
  pub write_ok :
      (q : Location) (bytes : Data) (f : F)
      → (os.write_file q bytes f).1 ≡ true
      → content (os.write_file q bytes f).0 q ≡ some bytes
  pub write_others :
      (q : Location) (bytes : Data) (f : F) (p : Location)
      → p ≢ q
      → content (os.write_file q bytes f).0 p ≡ content f p
  pub vacuum_ok :
      (live : Data) (q : Location) (f : F)
      → (os.vacuum_into live q f).1 ≡ true
      → content (os.vacuum_into live q f).0 q ≡ some live
  pub vacuum_others :
      (live : Data) (q : Location) (f : F) (p : Location)
      → p ≢ q
      → content (os.vacuum_into live q f).0 p ≡ content f p
  pub read_reads :
      (p : Location) (f : F) {bytes : Data}
      → os.read_file p f ≡ some bytes
      → content f p ≡ some bytes
  pub stat_missing : (p : Location) (f : F) → os.stat p f ≡ missing → content f p ≡ none
  pub glob_finds :
      (dir : String) (f : F) {found : List Location} (p : Location)
      → os.glob dir f ≡ some found
      → In p found
      → (p.0 ≡ dir) × (is_backup_name p.1 ≡ true) × (content f p ≢ none)
  pub glob_apart :
      (dir : String) (f : F) {found : List Location}
      → os.glob dir f ≡ some found
      → AllPairs (λ p q. p ≢ q) found

-- No call fails: a file that is there can be read and flushed.
pub record Works {F Data : Type 0} {os : Os F Data} (law : IsFileSystem os) : Type 0 where
  pub mkdir_works : (dir : String) (f : F) → (os.mkdir_all dir f).1 ≡ true
  pub rename_works :
      (old new : Location) (f : F) → law.content f old ≢ none → (os.rename old new f).1 ≡ true
  pub write_works : (q : Location) (bytes : Data) (f : F) → (os.write_file q bytes f).1 ≡ true
  pub vacuum_works : (live : Data) (q : Location) (f : F) → (os.vacuum_into live q f).1 ≡ true
  pub open_works : (q : Location) (f : F) → law.content f q ≢ none → os.open_file q f ≡ true
  pub sync_works : (q : Location) (f : F) → (os.sync q f).1 ≡ true
  pub remove_works : (q : Location) (f : F) → law.content f q ≢ none → (os.remove q f).1 ≡ true
  pub read_works :
      (q : Location) (f : F) {bytes : Data}
      → law.content f q ≡ some bytes
      → os.read_file q f ≡ some bytes

pub same_or_not : (p q : Location) → (p ≡ q) ⊎ (p ≢ q)
same_or_not p q = elim (Bool-cases (p.0 == q.0)) [
  | inr e ↦ inr (λ same. ground (arith, e, eq_iff p.0 q.0, ap (λ (x : Location). x.0) same))
  | inl e ↦ elim (Bool-cases (p.1 == q.1)) [
    | inr d ↦ inr (λ same. ground (arith, d, eq_iff p.1 q.1, ap (λ (x : Location). x.1) same))
    | inl d ↦ inl (λ i. ((eq_iff p.0 q.0).0 e i, (eq_iff p.1 q.1).0 d i))
  ]
]

module _ {F Data : Type 0} (os : Os F Data) (law : IsFileSystem os) where
  pub content-sync_file :
      (q : Location) (f : F) (p : Location) → law.content (sync_file os q f).0 p ≡ law.content f p
  unfolding sync_file
  content-sync_file q f p = elim (Bool-cases (os.open_file q f)) [
    | inl e ↦ rw e (law.sync_keeps q f p)
    | inr e ↦ rw e refl
  ]

  pub sync_file-Works :
      (q : Location) (f : F) {bytes : Data}
      → Works law
      → law.content f q ≡ some bytes
      → (sync_file os q f).1 ≡ true
  unfolding sync_file
  sync_file-Works q f {bytes} works there =
      let opened = works.open_works q f (λ lost. none-ne-some bytes (sym lost ∙ there)) in
      rw (opened, sync_file) (works.sync_works q f)

  -- Removing a file, whether it fails or not, leaves it or takes it away.
  pub content-remove :
      (q : Location) (f : F) (p : Location)
      → (law.content (os.remove q f).0 p ≡ law.content f p)
        ⊎ ((law.content (os.remove q f).0 p ≡ none) × (p ≡ q))
  content-remove q f p = elim (same_or_not p q) [
    | inr other ↦ inl (law.remove_others q f p other)
    | inl same ↦ elim (Bool-cases (os.remove q f).1) [
      | inl e ↦ inr (ap (law.content (os.remove q f).0) same ∙ law.remove_ok q f e, same)
      | inr e ↦ inl (
          ap (law.content (os.remove q f).0) same
          ∙ (law.remove_failed q f e ∙ ap (law.content f) (sym same)))
    ]
  ]
