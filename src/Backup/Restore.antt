-- ===== src/Backup/Restore.antt =====
-- `LatestBackup` and `RestoreIfMissing` of internal/store/backup.go: a database that is gone is replaced by the
-- newest snapshot, and one that is there is left alone.
use Prim.Native.String.{◌++◌}
use k3_control_plane.Base.{
  String, true, false, ◌≡◌, ◌≢◌, refl, sym, ap, ◌∙◌, Option, none, some, List, [], ◌∷◌, inl, inr,
  ◌⊎◌, In, In-All, All-In, All, AllPairs, Option-cases, subst, str_ltb_irrefl,
}
use mathlib.Core.Option.{none-ne-some, some-injective}
use k3_control_plane.Base.Sort.{sort_by, In-sort_by, sort_by-IsSorted}
use k3_control_plane.Base.Sorted.{pairs_of_sorted}
use k3_control_plane.Store.Order.{by_key-IsOrder}
use k3_control_plane.Base.Attempt.{attempt, attempt_case}
use k3_control_plane.Base.Strings.{append_longer}
use k3_control_plane.Backup.{
  Location, Os, Result, Stat, present, missing, unreadable, location_less, last, list_backups,
  latest_backup, sync_file, newest_of, restore_from, restore_if_missing,
}
use k3_control_plane.Backup.Files.{IsFileSystem, Works, sync_file-Works, content-sync_file}

some_of_not_none : {A : Type 0} (o : Option A) → o ≢ none → (a : A) × (o ≡ some a)
some_of_not_none none h = absurd (h refl)
some_of_not_none (some a) h = (a, refl)

Stat-cases : (s : Stat) → (s ≡ present) ⊎ (s ≡ unreadable) ⊎ (s ≡ missing)
Stat-cases present = inl refl
Stat-cases unreadable = inr (inl refl)
Stat-cases missing = inr (inr refl)

In-last : (a : Location) (bs : List Location) → In (last a bs) (a ∷ bs)
In-last a [] = inl refl
In-last a (b ∷ bs) = inr (In-last b bs)

last_greatest :
    (a : Location) (bs : List Location)
    → AllPairs (λ x y. location_less y x ≡ false) (a ∷ bs)
    → All (λ x. location_less (last a bs) x ≡ false) (a ∷ bs)
unfolding location_less
last_greatest a [] h = (str_ltb_irrefl a.1, tt)
last_greatest a (b ∷ bs) h = (
  All-In (λ y. location_less y a ≡ false) (last b bs) (b ∷ bs) h.0 (In-last b bs),
  last_greatest b bs h.1,
)

newest_of_sorted :
    (bs : List Location) (latest : Location)
    → newest_of bs ≡ some latest
    → AllPairs (λ x y. location_less y x ≡ false) bs
    → In latest bs × All (λ x. location_less latest x ≡ false) bs
newest_of_sorted [] latest e h = cc
newest_of_sorted (a ∷ bs) latest e h =
    let e' = some-injective (last a bs) latest e in
    (
      subst (λ x. In x (a ∷ bs)) e' (In-last a bs),
      subst (λ y. All (λ x. location_less y x ≡ false) (a ∷ bs)) e' (last_greatest a bs h),
    )

module _ {F Data : Type 0} (os : Os F Data) where
  -- Of the snapshots that are found, one that has no newer.
  abbrev pub IsNewest : String → F → Location → Type 0
  IsNewest dir f latest =
      (found : List Location) × (os.glob dir f ≡ some found)
      × In latest found
      × All (λ q. location_less latest q ≡ false) found

  pub latest_backup-IsNewest :
      (dir : String) (f : F) (latest : Location)
      → latest_backup os dir f ≡ some (some latest)
      → IsNewest dir f latest
  unfolding latest_backup list_backups location_less
  latest_backup-IsNewest dir f latest h = elim (Option-cases (os.glob dir f)) [
    | inl failed ↦
        let h' : none ≡ some (some latest) = rw (failed, latest_backup, list_backups) at h in
        absurd cc
    | inr (found, globbed) ↦
        let h' : some (newest_of (sort_by location_less found)) ≡ some (some latest) =
          rw (globbed, latest_backup, list_backups) at h in
        let (i, above) =
          newest_of_sorted (sort_by location_less found) latest (some-injective _ _ h') (
            pairs_of_sorted location_less _
              (sort_by-IsSorted location_less (by_key-IsOrder (λ (a : Location). a.1)) found)) in
        (
          found,
          globbed,
          (In-sort_by location_less latest found).0 i,
          In-All (λ q. location_less latest q ≡ false) found
              (λ q j.
                All-In (λ q. location_less latest q ≡ false) q (sort_by location_less found) above
                  ((In-sort_by location_less q found).1 j)),
        )
  ]

module _ {F Data : Type 0} (os : Os F Data) (law : IsFileSystem os) (db : Location)
    (backup_dir : String) (f : F) where
  -- The database is as it was and no snapshot is reported; or it was missing, and it is now the newest snapshot.
  abbrev pub IsRestored : Result F → Type 0
  IsRestored out =
      ((law.content out.0 db ≡ law.content f db) × (out.1.0 ≡ none))
      ⊎ ((latest : Location) × (out.1 ≡ (some latest, true))
          × (law.content f db ≡ none)
          × (law.content f latest ≢ none)
          × (law.content out.0 db ≡ law.content f latest)
          × IsNewest os backup_dir f latest)

  abbrev restoring : Location
  restoring = (db.0, db.1 ++ ".restore")

  abbrev Untouched : F → Type 0
  Untouched g = law.content g db ≡ law.content f db

  restoring_apart : db ≢ restoring
  restoring_apart same =
      append_longer db.1 ".restore" (λ e. cc) (ap (λ (p : Location). p.1) (sym same))

  restore_from-IsRestored :
      (latest : Location)
      → law.content f db ≡ none
      → IsNewest os backup_dir f latest
      → IsRestored (restore_from os latest db f)
  unfolding restore_from
  restore_from-IsRestored latest gone newest =
      let made = (os.mkdir_all db.0 f).0 in
      let make : Untouched made = law.mkdir_keeps db.0 f db in
      attempt_case IsRestored (os.mkdir_all db.0 f) (λ g. (g, (none, false))) _
        (λ _. inl (make, refl))
        λ _. elim (Option-cases (os.read_file latest made)) [
          | inl failed ↦ rw failed (inl (make, refl))
          | inr (bytes, found) ↦
              let written = (os.write_file restoring bytes made).0 in
              let write : Untouched written =
                law.write_others restoring bytes made db restoring_apart ∙ make in
              let synced = (sync_file os restoring written).0 in
              let sync : Untouched synced = content-sync_file os law restoring written db ∙ write in
              let stored = sym (law.mkdir_keeps db.0 f latest) ∙ law.read_reads latest made found in
              rw found (
                attempt_case IsRestored (os.write_file restoring bytes made)
                  (λ g. (g, (none, false))) _ (λ _. inl (write, refl))
                  λ filled.
                    attempt_case IsRestored (sync_file os restoring written)
                      (λ g. (g, (none, false))) _ (λ _. inl (sync, refl))
                      λ _.
                        attempt_case IsRestored (os.rename restoring db synced)
                          (λ g. (g, (none, false))) (λ g. (g, (some latest, true)))
                          (λ failed.
                            inl (law.rename_failed restoring db synced failed db ∙ sync, refl))
                          (λ ok. inr (
                            latest,
                            refl,
                            gone,
                            (λ lost. none-ne-some bytes (sym lost ∙ stored)),
                            law.rename_ok restoring db synced ok
                                ∙ (content-sync_file os law restoring written restoring
                                    ∙ (law.write_ok restoring bytes made filled ∙ sym stored)),
                            newest,
                          )))
        ]

  -- After a restore, with errors or without, the database is as it was and no snapshot is
  -- reported; or it was missing, and it now has the content of the snapshot that is reported,
  -- which none of the snapshots found is newer than.
  pub restore_if_missing-IsRestored : IsRestored (restore_if_missing os db backup_dir f)
  unfolding restore_if_missing
  restore_if_missing-IsRestored = elim (Stat-cases (os.stat db f)) [
    | inl e ↦ rw (e, restore_if_missing) (inl (refl, refl))
    | inr (inl e) ↦ rw (e, restore_if_missing) (inl (refl, refl))
    | inr (inr e) ↦ elim (Option-cases (latest_backup os backup_dir f)) [
      | inl failed ↦ rw (e, restore_if_missing, failed) (inl (refl, refl))
      | inr (o, listed) ↦ elim (Option-cases o) [
        | inl none_found ↦ rw (e, restore_if_missing, listed, none_found) (inl (refl, refl))
        | inr (latest, found) ↦
            rw (e, restore_if_missing, listed, found)
              (restore_from-IsRestored latest (law.stat_missing db f e)
                (latest_backup-IsNewest os backup_dir f latest (listed ∙ ap some found)))
      ]
    ]
  ]

  -- A restore reports the newest snapshot and no error, if the database is missing, the snapshot
  -- is there and no call fails.
  pub restore_if_missing_recovers :
      (latest : Location)
      → Works law
      → os.stat db f ≡ missing
      → latest_backup os backup_dir f ≡ some (some latest)
      → law.content f latest ≢ none
      → (restore_if_missing os db backup_dir f).1 ≡ (some latest, true)
  unfolding restore_if_missing restore_from attempt
  restore_if_missing_recovers latest works gone found stored =
      let (bytes, there) = some_of_not_none (law.content f latest) stored in
      let made = (os.mkdir_all db.0 f).0 in
      let read = works.read_works latest made (law.mkdir_keeps db.0 f latest ∙ there) in
      let written = (os.write_file restoring bytes made).0 in
      let filled = law.write_ok restoring bytes made (works.write_works restoring bytes made) in
      let synced = content-sync_file os law restoring written restoring ∙ filled in
      rw
        (
          gone,
          restore_if_missing,
          found,
          restore_from,
          works.mkdir_works db.0 f,
          attempt,
          read,
          works.write_works restoring bytes made,
          sync_file-Works os law restoring written works filled,
          works.rename_works restoring db (sync_file os restoring written).0
              (λ lost. none-ne-some bytes (sym lost ∙ synced)),
        )
        refl
