-- ===== src/Backup/Publish.antt =====
-- `Backup` of internal/store/backup.go: a snapshot appears whole or not at all, and no other file is lost but
-- the oldest snapshots.
use Prim.Native.String.{◌++◌}
use mathlib.Core.List
use k3_control_plane.Base.{
  String, Bool, true, false, ◌≡◌, ◌≢◌, refl, ap, ◌∙◌, none, some, List, inl, inr, ◌⊎◌, In,
  In-append,
}
use k3_control_plane.Base.Int.{ℤ}
use k3_control_plane.Base.Sort.{In-sort_by}
use k3_control_plane.Api.{Time}
use k3_control_plane.Base.Attempt.{attempt_case}
use k3_control_plane.Backup.{
  Location, Os, Result, is_backup_name, location_less, prune_backups, sync_file, backup_name,
  give_up, backup,
}
use k3_control_plane.Backup.Files.{IsFileSystem, content-sync_file, same_or_not}
use k3_control_plane.Backup.Prune.{prune_backups_case}

In-split :
    (p : Location) (old new all : List Location) → all ≡ List.◌++◌ old new → In p old → In p all
In-split p old new all split i = rw split ((In-append p old new).1 (inl i))

module _ {F Data : Type 0} (os : Os F Data) (law : IsFileSystem os) (live : Data) (dir : String)
    (keep : ℤ) (now : Time) (f : F) where
  abbrev pub final_of : Location
  final_of = (dir, backup_name os now)

  abbrev pub temporary_of : Location
  temporary_of = (dir, backup_name os now ++ ".tmp")

  -- A file is as it was; or the snapshot was published, and it is this snapshot, or an old one that is gone.
  abbrev pub IsLeft : Location → Result F → Type 0
  IsLeft p out =
      (law.content out.0 p ≡ law.content f p)
      ⊎ ((out.1.0 ≡ some final_of)
          × (((p ≡ final_of) × (law.content out.0 p ≡ some live))
              ⊎ ((law.content out.0 p ≡ none) × (p.0 ≡ dir) × (is_backup_name p.1 ≡ true))))

  -- The file under the temporary name apart, nothing has changed yet.
  abbrev pub Untouched : F → Type 0
  Untouched g = (p : Location) → p ≢ temporary_of → law.content g p ≡ law.content f p

  gave_up :
      (g : F) (p : Location) → Untouched g → p ≢ temporary_of → IsLeft p (give_up os temporary_of g)
  gave_up g p same apart = inl (law.remove_others temporary_of g p apart ∙ same p apart)

  -- What the renaming has made of the files, if it succeeded.
  pub published_left :
      (g : F) (p : Location)
      → Untouched g
      → law.content g temporary_of ≡ some live
      → (os.rename temporary_of final_of g).1 ≡ true
      → p ≢ temporary_of
      → (law.content (os.rename temporary_of final_of g).0 p ≡ law.content f p)
        ⊎ ((p ≡ final_of) × (law.content (os.rename temporary_of final_of g).0 p ≡ some live))
  published_left g p same there ok apart = elim (same_or_not p final_of) [
    | inl e ↦ inr (
      e,
      ap (law.content (os.rename temporary_of final_of g).0) e
          ∙ (law.rename_ok temporary_of final_of g ok ∙ there),
    )
    | inr e ↦ inl (law.rename_others temporary_of final_of g p apart e ∙ same p apart)
  ]

  same-IsLeft :
      (g : F) (p : Location) (ok : Bool)
      → law.content (prune_backups os dir keep g).0 p ≡ law.content g p
      → (law.content g p ≡ law.content f p) ⊎ ((p ≡ final_of) × (law.content g p ≡ some live))
      → IsLeft p ((prune_backups os dir keep g).0, (some final_of, ok))
  same-IsLeft g p ok same before = elim before [
    | inl e ↦ inl (same ∙ e)
    | inr (is_final, e) ↦ inr (refl, inl (is_final, same ∙ e))
  ]

  -- The pruning, whether it succeeds or not.
  pruned-IsLeft :
      (g : F) (p : Location) (ok : Bool)
      → (law.content g p ≡ law.content f p) ⊎ ((p ≡ final_of) × (law.content g p ≡ some live))
      → IsLeft p ((prune_backups os dir keep g).0, (some final_of, ok))
  pruned-IsLeft g p ok before = elim (prune_backups_case os law dir keep g) [
    | inl same ↦ same-IsLeft g p ok (same p) before
    | inr (k, found, positive, globbed, h) ↦ elim (h.kept p) [
      | inl same ↦ same-IsLeft g p ok same before
      | inr (gone, i) ↦
          let listed = (In-sort_by location_less p found).0 (In-split p h.old h.new _ h.split i) in
          let (at_dir, named, _) = law.glob_finds dir g p globbed listed in
          inr (refl, inr (gone, at_dir, named))
    ]
  ]

  -- Whatever call fails during a backup, every file but the one with the temporary name is as it
  -- was; or the snapshot was published, and the file is this snapshot with the content of the
  -- database, or a snapshot of the backup directory that is gone.
  pub backup_leaves : (p : Location) → p ≢ temporary_of → IsLeft p (backup os live dir keep now f)
  unfolding backup
  backup_leaves p apart =
      let P : Result F → Type 0 = IsLeft p in
      let made = (os.mkdir_all dir f).0 in
      let cleared = (os.remove temporary_of made).0 in
      let clear : Untouched cleared =
        λ q a. law.remove_others temporary_of made q a ∙ law.mkdir_keeps dir f q in
      let copied = (os.vacuum_into live temporary_of cleared).0 in
      let copy : Untouched copied =
        λ q a. law.vacuum_others live temporary_of cleared q a ∙ clear q a in
      let synced = (sync_file os temporary_of copied).0 in
      let sync : Untouched synced =
        λ q a. content-sync_file os law temporary_of copied q ∙ copy q a in
      attempt_case P (os.mkdir_all dir f) (λ g. (g, (none, false))) _
        (λ _. inl (law.mkdir_keeps dir f p))
        λ _.
          attempt_case P (os.vacuum_into live temporary_of cleared) (give_up os temporary_of) _
            (λ _. gave_up copied p copy apart)
            λ filled.
              attempt_case P (sync_file os temporary_of copied) (give_up os temporary_of) _
                (λ _. gave_up synced p sync apart)
                λ _.
                  attempt_case P (os.rename temporary_of final_of synced) (give_up os temporary_of)
                    _
                    (λ failed.
                      gave_up (os.rename temporary_of final_of synced).0 p
                        (λ q a. law.rename_failed temporary_of final_of synced failed q ∙ sync q a)
                        apart)
                    λ ok.
                      let there =
                        content-sync_file os law temporary_of copied temporary_of
                        ∙ law.vacuum_ok live temporary_of cleared filled in
                      let left = published_left synced p sync there ok apart in
                      let published = (os.rename temporary_of final_of synced).0 in
                      attempt_case P (prune_backups os dir keep published)
                        (λ g. (g, (some final_of, false))) (λ g. (g, (some final_of, true)))
                        (λ _. pruned-IsLeft published p false left)
                        λ _. pruned-IsLeft published p true left
