-- ===== src/Backup/Newest.antt =====
-- A `Backup` (internal/store/backup.go) that reports success has stored the database.
use k3_control_plane.Base.{
  ℕ, ◌≤◌, String, true, false, ◌≡◌, ◌≢◌, refl, sym, ap, ◌∙◌, none, some, List, [], ◌∷◌, inl, inr,
  ◌⊎◌, In, AllPairs, length, AllPairs-append, In-append, arith, str_ltb, str_ltb_total, subst,
}
use mathlib.Core.List
use k3_control_plane.Base.Int.{ℤ, pos, ltb_ℤ}
use k3_control_plane.Base.Sort.{sort_by, In-sort_by, AllPairs-sort_by, sort_by-IsSorted, IsOrder}
use k3_control_plane.Base.Sorted.{pairs_of_sorted}
use k3_control_plane.Store.Order.{by_key-IsOrder}
use k3_control_plane.Api.{Time}
use k3_control_plane.Base.Attempt.{attempt_case}
use k3_control_plane.Base.Strings.{append_longer}
use k3_control_plane.Backup.{
  Location, Os, Result, is_backup_name, location_less, prune_backups, sync_file, backup_name,
  give_up, backup,
}
use k3_control_plane.Backup.Files.{IsFileSystem, content-sync_file}
use k3_control_plane.Backup.Prune.{prune_backups_case}
use k3_control_plane.Backup.Publish.{Untouched, final_of, temporary_of, published_left}

-- The first items of a sorted list of different locations come before the others.
before_others :
    (found old new : List Location) (p n : Location)
    → AllPairs (λ p q. p ≢ q) found
    → sort_by location_less found ≡ List.◌++◌ old new
    → In p old
    → In n new
    → (p ≢ n) × (location_less n p ≡ false)
unfolding location_less
before_others found old new p n apart split i j =
    let order : IsOrder location_less = by_key-IsOrder (λ (a : Location). a.1) in
    let different : AllPairs (λ (a b : Location). a ≢ b) (sort_by location_less found) =
      AllPairs-sort_by location_less (λ (a b : Location). a ≢ b) (λ a b h same. h (sym same)) found
        apart in
    let sorted = pairs_of_sorted location_less _ (sort_by-IsSorted location_less order found) in
    (
      AllPairs-append (λ (a b : Location). a ≢ b) old new p n
          (subst (AllPairs (λ (a b : Location). a ≢ b)) split different) i j,
      AllPairs-append (λ a b. location_less b a ≡ false) old new p n
          (subst (AllPairs (λ a b. location_less b a ≡ false)) split sorted) i j,
    )

one_kept :
    (k : ℕ) (new : List Location)
    → ltb_ℤ (pos 0) (pos k) ≡ true
    → k ≤ length new
    → (n : Location) × In n new
one_kept k [] h e = absurd (ground arith)
one_kept k (n ∷ new) h e = (n, inl refl)

module _ {F Data : Type 0} (os : Os F Data) (law : IsFileSystem os) (live : Data) (dir : String)
    (keep : ℤ) (now : Time) (f : F)
    (newest : (p : Location)
      → p.0 ≡ dir
      → is_backup_name p.1 ≡ true
      → law.content f p ≢ none
      → str_ltb (backup_name os now) p.1 ≡ false) where
  abbrev final : Location
  final = final_of os law live dir keep now f

  abbrev temporary : Location
  temporary = temporary_of os law live dir keep now f

  temporary_apart : temporary ≢ final
  temporary_apart same =
      append_longer (backup_name os now) ".tmp" (λ e. cc) (ap (λ (p : Location). p.1) same)

  -- The snapshot just published is not among those that are pruned.
  not_pruned :
      (g : F) (k : ℕ) (found old new : List Location)
      → Untouched os law live dir keep now f g
      → law.content g temporary ≡ some live
      → (os.rename temporary final g).1 ≡ true
      → os.glob dir (os.rename temporary final g).0 ≡ some found
      → ltb_ℤ (pos 0) (pos k) ≡ true
      → sort_by location_less found ≡ List.◌++◌ old new
      → (old ≡ []) ⊎ (k ≤ length new)
      → In final old
      → ⊥
  unfolding location_less
  not_pruned g k found old new same there ok globbed positive split (inl none_old) i =
      rw none_old at i
  not_pruned g k found old new same there ok globbed positive split (inr enough) i =
      let published = (os.rename temporary final g).0 in
      let (n, j) = one_kept k new positive enough in
      let listed : In n found =
        (In-sort_by location_less n found).0 (rw split ((In-append n old new).1 (inr j))) in
      let (at_dir, named, stored) = law.glob_finds dir published n globbed listed in
      let (apart, below) =
        before_others found old new final n (law.glob_apart dir published globbed) split i j in
      let not_temporary : n ≢ temporary = λ e.
        stored
          (ap (law.content published) e ∙ law.rename_moves temporary final g temporary_apart ok) in
      elim (published_left os law live dir keep now f g n same there ok not_temporary) [
        | inr (e, _) ↦ apart (sym e)
        | inl e ↦
            let above = newest n at_dir named (λ gone. stored (e ∙ gone)) in
            elim (str_ltb_total (backup_name os now) n.1) [
              | inl names ↦ apart (λ i. (sym at_dir i, names i))
              | inr (inl less) ↦ cc
              | inr (inr less) ↦ cc
            ]
      ]

  abbrev IsStored : Result F → Type 0
  IsStored out = out.1.1 ≡ true → law.content out.0 final ≡ some live

  pruned_stored :
      (g : F)
      → Untouched os law live dir keep now f g
      → law.content g temporary ≡ some live
      → (os.rename temporary final g).1 ≡ true
      → law.content (prune_backups os dir keep (os.rename temporary final g).0).0 final ≡ some live
  pruned_stored g same there ok =
      let published = (os.rename temporary final g).0 in
      let stored = law.rename_ok temporary final g ok ∙ there in
      elim (prune_backups_case os law dir keep published) [
        | inl kept ↦ kept final ∙ stored
        | inr (k, found, positive, globbed, h) ↦ elim (h.kept final) [
          | inl kept ↦ kept ∙ stored
          | inr (_, i) ↦
              absurd
                (not_pruned g k found h.old h.new same there ok globbed positive h.split h.enough i)
        ]
      ]

  -- A backup that reports no error has left the content of the database under the name of the new
  -- snapshot, which the pruning has not taken away, if no stored snapshot of the directory has a
  -- later name.
  pub backup_stores :
      (backup os live dir keep now f).1.1 ≡ true
      → law.content (backup os live dir keep now f).0 (dir, backup_name os now) ≡ some live
  unfolding backup
  backup_stores =
      let made = (os.mkdir_all dir f).0 in
      let cleared = (os.remove temporary made).0 in
      let copied = (os.vacuum_into live temporary cleared).0 in
      let synced = (sync_file os temporary copied).0 in
      let sync : Untouched os law live dir keep now f synced = λ q a.
        content-sync_file os law temporary copied q
        ∙ (law.vacuum_others live temporary cleared q a
            ∙ (law.remove_others temporary made q a ∙ law.mkdir_keeps dir f q)) in
      attempt_case IsStored (os.mkdir_all dir f) (λ g. (g, (none, false))) _ (λ _ h. cc)
        λ _.
          attempt_case IsStored (os.vacuum_into live temporary cleared) (give_up os temporary) _
            (λ _ h. cc)
            λ filled.
              attempt_case IsStored (sync_file os temporary copied) (give_up os temporary) _
                (λ _ h. cc)
                λ _.
                  attempt_case IsStored (os.rename temporary final synced) (give_up os temporary) _
                    (λ _ h. cc)
                    λ ok.
                      let there =
                        content-sync_file os law temporary copied temporary
                        ∙ law.vacuum_ok live temporary cleared filled in
                      attempt_case IsStored
                        (prune_backups os dir keep (os.rename temporary final synced).0)
                        (λ g. (g, (some final, false))) (λ g. (g, (some final, true))) (λ _ h. cc)
                        (λ _ _. pruned_stored synced sync there ok)
