-- ===== src/Tests/Snapshots.antt =====
-- Files as a function from locations, in which two snapshots can stand, and a backup and a restore on them.
use mathlib.Core.Option.{none-ne-some, some-injective}
use k3_control_plane.Base.{
  ℕ, String, Bool, true, false, ◌&&◌, ◌==◌, eq_iff, ◌≡◌, ◌≢◌, refl, sym, ap, subst, Option, none,
  some, List, [], ◌∷◌, inl, inr, In, In-filter_by, filter_by, AllPairs, AllPairs-filter_by,
  Bool-cases, if◌then◌else◌, nat_eq, arith, str_ltb,
}
use k3_control_plane.Base.Strings.{cut_prefix, cut_suffix, has_suffix}
use k3_control_plane.Base.Int.{pos}
use k3_control_plane.Base.Attempt.{attempt}
use k3_control_plane.Backup.{
  Location, Os, present, missing, is_backup_name, backup, backup_name, latest_backup,
  restore_if_missing,
}
use k3_control_plane.Backup.{sync_file, prune_backups, list_backups, prune_loop, location_less}
use k3_control_plane.Base.Sort.{sort_by}
use k3_control_plane.Backup.Publish.{IsLeft, backup_leaves}
use k3_control_plane.Backup.Newest.{backup_stores}
use k3_control_plane.Backup.Restore.{
  IsRestored, restore_if_missing-IsRestored, restore_if_missing_recovers,
}
use k3_control_plane.Backup.Files.{IsFileSystem, Works}

abbrev Disk : Type 0
Disk = Location → Option ℕ

abbrev same : Location → Location → Bool
same p q = p.0 == q.0 && p.1 == q.1

same_iff : (p q : Location) → (same p q ≡ true) → p ≡ q
same_iff p q h =
    λ i. ((eq_iff p.0 q.0).0 (ground (arith, h)) i, (eq_iff p.1 q.1).0 (ground (arith, h)) i)

same_refl : (p : Location) → same p p ≡ true
same_refl p = ground (arith, eq_iff p.0 p.0, eq_iff p.1 p.1)

same_apart : (p q : Location) → p ≢ q → same p q ≡ false
same_apart p q h = elim (Bool-cases (same p q)) [ inl e ↦ absurd (h (same_iff p q e)) | inr e ↦ e ]

abbrev set : Location → Option ℕ → Disk → Disk
set q v f = λ p. if same p q then v else f p

abbrev is_some : {A : Type 0} → Option A → Bool
is_some none = false
is_some (some _) = true

abbrev first : Location
first = ("nas", "state-1.db")

abbrev second : Location
second = ("nas", "state-2.db")

abbrev database : Location
database = ("data", "state.db")

abbrev snapshots : List Location
snapshots = first ∷ second ∷ []

abbrev found_in : String → Disk → Location → Bool
found_in dir f p = p.0 == dir && is_some (f p)

abbrev disk : Os Disk ℕ
disk = record {
  mkdir_all = λ dir f. (f, true);
  remove = λ q f. (set q none f, is_some (f q));
  rename =
      λ old new f. if is_some (f old) then (set new (f old) (set old none f), true) else (f, false);
  open_file = λ q f. is_some (f q);
  sync = λ q f. (f, true);
  glob = λ dir f. some (filter_by (found_in dir f) snapshots);
  stat = λ q f. if is_some (f q) then present else missing;
  read_file = λ q f. f q;
  write_file = λ q bytes f. (set q (some bytes) f, true);
  vacuum_into = λ live q f. (set q (some live) f, true);
  stamp = λ t. if nat_eq t 1 then "1" else "2";
}

snapshots_named : (p : Location) → In p snapshots → is_backup_name p.1 ≡ true
unfolding is_backup_name cut_prefix has_suffix cut_suffix
snapshots_named p (inl e) = rw e refl
snapshots_named p (inr (inl e)) = rw e refl
snapshots_named p (inr (inr i)) = absurd i

is_some_of : {A : Type 0} (o : Option A) → o ≢ none → is_some o ≡ true
is_some_of none h = absurd (h refl)
is_some_of (some a) h = refl

is_some_iff : {A : Type 0} (o : Option A) → is_some o ≡ true → o ≢ none
is_some_iff none h e = cc
is_some_iff (some a) h e = cc

names_apart : ◌≢◌ {A = String} "state-1.db" "state-2.db"
names_apart e = let h : false ≡ true = (eq_iff "state-1.db" "state-2.db").1 e in absurd cc

stat_case :
    {A : Type 0} (o : Option A) → (if is_some o then present else missing) ≡ missing → o ≡ none
stat_case none h = refl
stat_case (some a) h = cc

snapshots_apart : AllPairs (λ p q. p ≢ q) snapshots
snapshots_apart = ((λ e. names_apart (ap (λ (p : Location). p.1) e), tt), (tt, tt))

rename_case :
    (P : Disk × Bool → Type 0) (old new : Location) (f : Disk)
    → (is_some (f old) ≡ true → P (set new (f old) (set old none f), true))
    → (is_some (f old) ≡ false → P (f, false))
    → P (disk.rename old new f)
rename_case P old new f moved stays = elim (Bool-cases (is_some (f old))) [
  | inl e ↦ rw e (moved e)
  | inr e ↦ rw e (stays e)
]

removed_nothing : {A : Type 0} (o : Option A) → is_some o ≡ false → o ≡ none
removed_nothing none h = refl
removed_nothing (some a) h = cc

abbrev disk_law : IsFileSystem disk
disk_law = record {
  content = λ f p. f p;
  mkdir_keeps = λ dir f p. refl;
  sync_keeps = λ q f p. refl;
  remove_ok = λ q f ok. rw (same_refl q) refl;
  remove_failed = λ q f failed. rw (same_refl q) (sym (removed_nothing (f q) failed));
  remove_others = λ q f p apart. rw (same_apart p q apart) refl;
  rename_ok = λ old new f.
      rename_case (λ out. out.1 ≡ true → out.0 new ≡ f old) old new f
        (λ _ _. rw (same_refl new) refl) (λ _ h. cc);
  rename_moves = λ old new f apart.
      rename_case (λ out. out.1 ≡ true → out.0 old ≡ none) old new f
        (λ _ _. rw (same_apart old new apart, same_refl old) refl) (λ _ h. cc);
  rename_failed = λ old new f.
      rename_case (λ out. out.1 ≡ false → (p : Location) → out.0 p ≡ f p) old new f (λ _ h. cc)
        (λ _ _ p. refl);
  rename_others = λ old new f p apart apart'.
      rename_case (λ out. out.0 p ≡ f p) old new f
        (λ _. rw (same_apart p new apart', same_apart p old apart) refl) (λ _. refl);
  write_ok = λ q bytes f _. rw (same_refl q) refl;
  write_others = λ q bytes f p apart. rw (same_apart p q apart) refl;
  vacuum_ok = λ live q f _. rw (same_refl q) refl;
  vacuum_others = λ live q f p apart. rw (same_apart p q apart) refl;
  read_reads = λ p f {bytes} e. e;
  stat_missing = λ p f. stat_case (f p);
  glob_finds = λ dir f {found} p globbed i.
      let (j, e) =
        In-filter_by (found_in dir f) p snapshots
          (rw (sym (some-injective _ found globbed)) at i) in
      (
        (eq_iff p.0 dir).0 (ground (arith, e)),
        snapshots_named p j,
        is_some_iff (f p) (ground (arith, e)),
      );
  glob_apart = λ dir f {found} globbed.
      subst (AllPairs (λ p q. p ≢ q)) (some-injective _ found globbed)
        (AllPairs-filter_by (λ p q. p ≢ q) (found_in dir f) snapshots snapshots_apart);
}

disk-Works : Works disk_law
disk-Works = record {
  mkdir_works = λ dir f. refl;
  rename_works = λ old new f there.
      rename_case (λ out. out.1 ≡ true) old new f (λ _. refl)
        (λ e. absurd (there (removed_nothing (f old) e)));
  write_works = λ q bytes f. refl;
  vacuum_works = λ live q f. refl;
  open_works = λ q f there. is_some_of (f q) there;
  sync_works = λ q f. refl;
  remove_works = λ q f there. is_some_of (f q) there;
  read_works = λ q f {bytes} e. e;
}

-- One snapshot is there, and no database.
abbrev one_snapshot : Disk
one_snapshot = set first (some 5) (λ p. none)

first_apart : first ≢ ("nas", "state-2.db.tmp")
first_apart e =
    let h : false ≡ true =
      (eq_iff "state-1.db" "state-2.db.tmp").1 (ap (λ (p : Location). p.1) e) in
    absurd cc

only_first : (p : Location) → one_snapshot p ≢ none → p ≡ first
only_first p there = elim (Bool-cases (same p first)) [
  | inl e ↦ same_iff p first e
  | inr e ↦ absurd (there (rw e refl))
]

backup_leaves_example :
    IsLeft disk disk_law 7 "nas"
      (pos 1)
      2
      one_snapshot
      first
      (backup disk 7 "nas" (pos 1) 2 one_snapshot)
unfolding backup_name
backup_leaves_example = backup_leaves disk disk_law 7 "nas" (pos 1) 2 one_snapshot first first_apart

later_name :
    (p : Location)
    → p.0 ≡ "nas"
    → is_backup_name p.1 ≡ true
    → one_snapshot p ≢ none
    → str_ltb (backup_name disk 2) p.1 ≡ false
unfolding backup_name str_ltb
later_name p at_dir named there =
    ap (λ (q : Location). str_ltb (backup_name disk 2) q.1) (only_first p there)

backup_succeeds : (backup disk 7 "nas" (pos 1) 2 one_snapshot).1.1 ≡ true
unfolding backup backup_name sync_file prune_backups list_backups prune_loop attempt filter_by
    sort_by location_less str_ltb
backup_succeeds = refl

backup_stores_example :
    (backup disk 7 "nas" (pos 1) 2 one_snapshot).0 ("nas", backup_name disk 2) ≡ some 7
backup_stores_example =
    backup_stores disk disk_law 7 "nas" (pos 1) 2 one_snapshot later_name backup_succeeds

restore_if_missing-IsRestored_example :
    IsRestored disk disk_law database "nas" one_snapshot
      (restore_if_missing disk database "nas" one_snapshot)
restore_if_missing-IsRestored_example =
    restore_if_missing-IsRestored disk disk_law database "nas" one_snapshot

first_is_latest : latest_backup disk "nas" one_snapshot ≡ some (some first)
unfolding latest_backup list_backups filter_by sort_by location_less
first_is_latest = refl

restore_if_missing_recovers_example :
    (restore_if_missing disk database "nas" one_snapshot).1 ≡ (some first, true)
restore_if_missing_recovers_example =
    restore_if_missing_recovers disk disk_law database "nas" one_snapshot first disk-Works refl
      first_is_latest (λ e. none-ne-some 5 (sym e))
