-- ===== src/Base/Every.antt =====
-- A predicate on everything that a map holds.
use k3_control_plane.Base.{[], ◌∷◌, String, ◌≡◌, subst, some, Bool-cases, inl, inr, ◌==◌}
use mathlib.Core.Option.{none-ne-some, some-injective}
use k3_control_plane.Base.Assoc
use k3_control_plane.Base.Assoc.{Assoc, get-put, get-remove}

module _ {V : Type 0} (P : V → Type 0) where
  abbrev pub Every : Assoc V → Type 0
  Every m = (k : String) (v : V) → Assoc.get k m ≡ some v → P v

  pub Every-put : (k : String) (v : V) (m : Assoc V) → P v → Every m → Every (Assoc.put k v m)
  Every-put k v m p h j w g = elim (Bool-cases (k == j)) [
    | inl e ↦ subst P (some-injective v w (rw (get-put k j v m, e) at g)) p
    | inr e ↦ h j w (rw (get-put k j v m, e) at g)
  ]

  pub Every-remove : (k : String) (m : Assoc V) → Every m → Every (Assoc.remove k m)
  Every-remove k m h j w g = elim (Bool-cases (k == j)) [
    | inl e ↦ absurd (none-ne-some w (rw (get-remove k j m, e) at g))
    | inr e ↦ h j w (rw (get-remove k j m, e) at g)
  ]

  pub Every-empty : Every []
  unfolding Assoc.get
  Every-empty k v g = absurd (none-ne-some v g)

  pub Every-entry : (k : String) (v : V) (m : Assoc V) → P v → Every m → Every ((k, v) ∷ m)
  unfolding Assoc.get
  Every-entry k v m p h j w g = elim (Bool-cases (k == j)) [
    | inl e ↦ subst P (some-injective v w (rw e at g)) p
    | inr e ↦ h j w (rw e at g)
  ]
