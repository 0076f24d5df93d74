-- ===== src/Backup.antt =====
-- internal/store/backup.go: snapshots of the database in a backup directory, and how a controller whose
-- database is gone takes the newest one back.
--
-- The operating system is not code of this repository: its calls are the record `Os`, each of which may
-- fail. A path is its directory and its name.
pub mod Files
pub mod Prune
pub mod Publish
pub mod Newest
pub mod Restore
use Prim.Native.String.{◌++◌}
use k3_control_plane.Base.{
  ℕ, String, Bool, true, false, Option, none, some, List, [], ◌∷◌, length, str_ltb, if◌then◌else◌,
}
use k3_control_plane.Base.Attempt.{attempt}
use k3_control_plane.Base.Strings.{cut_prefix, has_suffix}
use k3_control_plane.Base.Int.{ℤ, pos, ltb_ℤ}
use k3_control_plane.Base.Sort.{sort_by}
use k3_control_plane.Api.{Time}

abbrev pub Location : Type 0
Location = String × String

pub data Stat : Type 0 where
  present missing unreadable : Stat

-- A call that changes the files gives them with whether there was no error.
pub record Os (Files Data : Type 0) : Type 0 where
  pub mkdir_all : String → Files → Files × Bool
  pub remove : Location → Files → Files × Bool
  pub rename : Location → Location → Files → Files × Bool
  pub open_file : Location → Files → Bool
  pub sync : Location → Files → Files × Bool
  -- `filepath.Glob` of the snapshots' pattern in a directory whose path has no character that a pattern
  -- gives a meaning
  pub glob : String → Files → Option (List Location)
  pub stat : Location → Files → Stat
  pub read_file : Location → Files → Option Data
  pub write_file : Location → Data → Files → Files × Bool
  -- VACUUM INTO of a database with this content
  pub vacuum_into : Data → Location → Files → Files × Bool
  -- `t.UTC().Format("20060102T150405Z")`
  pub stamp : Time → String

-- Where the files, the path that is returned (`none` for the empty one) and whether there was no error.
abbrev pub Result : Type 0 → Type 0
Result F = F × (Option Location × Bool)

-- `state-*.db`
unfoldable pub is_backup_name : String → Bool
is_backup_name name = elim (cut_prefix name "state-") [
  | none ↦ false
  | some rest ↦ has_suffix rest ".db"
]

unfoldable pub location_less : Location → Location → Bool
location_less a b = str_ltb a.1 b.1

abbrev pub last : Location → List Location → Location
last a [] = a
last a (b ∷ bs) = last b bs

-- `backups[len(backups)-1]`, if there is one
abbrev pub newest_of : List Location → Option Location
newest_of [] = none
newest_of (a ∷ bs) = some (last a bs)

module _ {F Data : Type 0} (os : Os F Data) where
  unfoldable pub sync_file : Location → F → F × Bool
  sync_file path files = if os.open_file path files then os.sync path files else (files, false)

  unfoldable pub list_backups : String → F → Option (List Location)
  list_backups dir files = elim (os.glob dir files) [
    | none ↦ none
    | some backups ↦ some (sort_by location_less backups)
  ]

  unfoldable pub prune_loop : ℤ → List Location → F → F × Bool
  prune_loop keep [] files = (files, true)
  prune_loop keep (oldest ∷ backups) files =
      if ltb_ℤ keep (pos (length (oldest ∷ backups)))
      then attempt (os.remove oldest files) (λ files'. (files', false)) (prune_loop keep backups)
      else (files, true)

  unfoldable pub prune_backups : String → ℤ → F → F × Bool
  prune_backups dir keep files =
      if ltb_ℤ (pos 0) keep
      then elim (list_backups dir files) [
        | none ↦ (files, false)
        | some backups ↦ prune_loop keep backups files
      ]
      else (files, true)

  unfoldable pub backup_name : Time → String
  backup_name now = "state-" ++ (os.stamp now ++ ".db")

  -- `_ = os.Remove(tmp)` and the return of an error
  abbrev pub give_up : Location → F → Result F
  give_up tmp files = ((os.remove tmp files).0, (none, false))

  unfoldable pub backup : Data → String → ℤ → Time → F → Result F
  backup live dir keep now files =
      let final : Location = (dir, backup_name now) in
      let tmp : Location = (dir, backup_name now ++ ".tmp") in
      attempt (os.mkdir_all dir files) (λ f. (f, (none, false)))
        λ made. attempt (os.vacuum_into live tmp (os.remove tmp made).0) (give_up tmp) λ copied.
          attempt (sync_file tmp copied) (give_up tmp) λ synced.
            attempt (os.rename tmp final synced) (give_up tmp) λ published.
              attempt (prune_backups dir keep published) (λ f. (f, (some final, false)))
                λ pruned. (pruned, (some final, true))

  -- The newest snapshot, `some none` where there is none, and `none` for an error.
  unfoldable pub latest_backup : String → F → Option (Option Location)
  latest_backup dir files = elim (list_backups dir files) [
    | none ↦ none
    | some backups ↦ some (newest_of backups)
  ]

  -- `RestoreIfMissing` from the reading of the newest snapshot on.
  unfoldable pub restore_from : Location → Location → F → Result F
  restore_from latest db files =
      let tmp : Location = (db.0, db.1 ++ ".restore") in
      attempt (os.mkdir_all db.0 files) (λ f. (f, (none, false)))
        λ made. elim (os.read_file latest made) [
          | none ↦ (made, (none, false))
          | some content ↦
              attempt (os.write_file tmp content made) (λ f. (f, (none, false)))
                λ written.
                  attempt (sync_file tmp written) (λ f. (f, (none, false)))
                    λ synced.
                      attempt (os.rename tmp db synced) (λ f. (f, (none, false)))
                        λ published. (published, (some latest, true))
        ]

  unfoldable pub restore_if_missing : Location → String → F → Result F
  restore_if_missing db backup_dir files = elim (os.stat db files) [
    | present ↦ (files, (none, true))
    | unreadable ↦ (files, (none, false))
    | missing ↦ elim (latest_backup backup_dir files) [
      | none ↦ (files, (none, false))
      | some none ↦ (files, (none, true))
      | some (some latest) ↦ restore_from latest db files
    ]
  ]
