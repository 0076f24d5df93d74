-- ===== src/Backup/Prune.antt =====
-- `pruneBackups` of internal/store/backup.go removes the oldest snapshots and no others.
use k3_control_plane.Base.{
  ℕ, ◌≤◌, String, Bool, true, false, ◌≡◌, refl, sym, ap, ◌∙◌, none, some, List, [], ◌∷◌, ◌++◌, inl,
  inr, ◌⊎◌, In, All, length, Bool-cases, Option-cases, arith,
}
use k3_control_plane.Base.Int.{ℤ, pos, negsuc, ltb_ℤ}
use k3_control_plane.Base.Sort.{sort_by}
use k3_control_plane.Base.Attempt.{attempt_case}
use k3_control_plane.Backup.{Location, Os, location_less, list_backups, prune_loop, prune_backups}
use k3_control_plane.Backup.Files.{IsFileSystem, content-remove}

positive : (n : ℤ) → ltb_ℤ (pos 0) n ≡ true → (k : ℕ) × (n ≡ pos k)
positive (pos k) h = (k, refl)
positive (negsuc k) h = absurd (ground arith)

module _ {F Data : Type 0} (os : Os F Data) (law : IsFileSystem os) where
  -- Of the snapshots, oldest first, some of the first ones may have been removed, as long as as many as are to
  -- be kept come after them; where there was no error, all but these are gone.
  pub record IsPruned (keep : ℕ) (backups : List Location) (f : F) (out : F × Bool) : Type 0 where
    pub old : List Location
    pub new : List Location
    pub split : backups ≡ old ++ new
    pub enough : (old ≡ []) ⊎ (keep ≤ length new)
    pub kept :
        (p : Location)
        → (law.content out.0 p ≡ law.content f p) ⊎ ((law.content out.0 p ≡ none) × In p old)
    pub done : (out.1 ≡ false) ⊎ ((length new ≤ keep) × All (λ p. law.content out.0 p ≡ none) old)

  untouched :
      (keep : ℕ) (backups : List Location) (f f' : F) (ok : Bool)
      → ((p : Location) → law.content f' p ≡ law.content f p)
      → (ok ≡ false) ⊎ (length backups ≤ keep)
      → IsPruned keep backups f (f', ok)
  untouched keep backups f f' ok same fits = record {
    old = [];
    new = backups;
    split = refl;
    enough = inl refl;
    kept = λ p. inl (same p);
    done = elim fits [ inl e ↦ inl e | inr e ↦ inr (e, tt) ];
  }

  one_more :
      (keep : ℕ) (b : Location) (backups : List Location) (f : F) (out : F × Bool)
      → keep ≤ length backups
      → (os.remove b f).1 ≡ true
      → IsPruned keep backups (os.remove b f).0 out
      → IsPruned keep (b ∷ backups) f out
  one_more keep b backups f out enough removed h = record {
    old = b ∷ h.old;
    new = h.new;
    split = ap (λ bs. b ∷ bs) h.split;
    enough = elim h.enough [
      | inl none_old ↦
          let new_is : backups ≡ h.new = h.split ∙ ap (λ old. old ++ h.new) none_old in
          inr (rw new_is at enough)
      | inr e ↦ inr e
    ];
    kept = λ p. elim (h.kept p) [
      | inr (gone, i) ↦ inr (gone, inr i)
      | inl same ↦ elim (content-remove os law b f p) [
        | inl e ↦ inl (same ∙ e)
        | inr (e, is_b) ↦ inr (same ∙ e, inl is_b)
      ]
    ];
    done = elim h.done [
      | inl e ↦ inl e
      | inr (fits, gone) ↦ inr (
        fits,
        (elim (h.kept b) [ inl same ↦ same ∙ law.remove_ok b f removed | inr (e, _) ↦ e ], gone),
      )
    ];
  }

  pub prune_loop-IsPruned :
      (keep : ℕ) (backups : List Location) (f : F)
      → IsPruned keep backups f (prune_loop os (pos keep) backups f)
  unfolding prune_loop
  prune_loop-IsPruned keep [] f = untouched keep [] f f true (λ p. refl) (inr (omega arith))
  prune_loop-IsPruned keep (b ∷ backups) f =
      elim (Bool-cases (ltb_ℤ (pos keep) (pos (length (b ∷ backups))))) [
        | inr e ↦ rw e (untouched keep (b ∷ backups) f f true (λ p. refl) (inr (ground (arith, e))))
        | inl e ↦ rw e (
            attempt_case (IsPruned keep (b ∷ backups) f) (os.remove b f) (λ f'. (f', false))
              (prune_loop os (pos keep) backups)
              (λ failed.
                untouched keep (b ∷ backups) f (os.remove b f).0 false
                  (λ p. elim (content-remove os law b f p) [
                    | inl same ↦ same
                    | inr (gone, is_b) ↦
                        ap (law.content (os.remove b f).0) is_b
                        ∙ (law.remove_failed b f failed ∙ ap (law.content f) (sym is_b))
                  ])
                  (inl refl))
              (λ removed.
                one_more keep b backups f _ (ground (arith, e)) removed
                  (prune_loop-IsPruned keep backups (os.remove b f).0)))
      ]

  -- Nothing is pruned, or the first of the snapshots that are found.
  pub prune_backups_case :
      (dir : String) (keep : ℤ) (f : F)
      → ((p : Location) → law.content (prune_backups os dir keep f).0 p ≡ law.content f p)
        ⊎ ((k : ℕ) × (found : List Location) × (ltb_ℤ (pos 0) (pos k) ≡ true)
            × (os.glob dir f ≡ some found)
            × IsPruned k (sort_by location_less found) f (prune_backups os dir keep f))
  unfolding prune_backups list_backups
  prune_backups_case dir keep f = elim (Bool-cases (ltb_ℤ (pos 0) keep)) [
    | inr e ↦ rw e (inl (λ p. refl))
    | inl e ↦ elim (Option-cases (os.glob dir f)) [
      | inl failed ↦ rw (e, failed) (inl (λ p. refl))
      | inr (found, globbed) ↦
          let (k, is_k) = positive keep e in
          rw (e, globbed, is_k)
            (inr (
              k,
              found,
              ap (ltb_ℤ (pos 0)) (sym is_k) ∙ e,
              refl,
              prune_loop-IsPruned k (sort_by location_less found) f,
            ))
    ]
  ]
