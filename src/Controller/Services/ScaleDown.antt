-- ===== src/Controller/Services/ScaleDown.antt =====
-- The first part of `reconcileService` (internal/controller/services.go): after it there are at most as
-- many replicas as wanted.
use k3_control_plane.Base.{
  ◌-◌, ◌^◌, ◌≤◌, ◌<◌, ◌≡◌, refl, sym, some, List, inl, inr, arith, Bool-cases, length, take, In-All,
  In-take, AllPairs-take, length-take_le,
}
use k3_control_plane.Base.Int.{pos, pos_part, neg_part, ltb_ℤ}
use k3_control_plane.Base.Sort.{sort_by, In-sort_by, AllPairs-sort_by, length-sort_by}
use k3_control_plane.Api.{Service, Assignment}
use k3_control_plane.Store.Keyed.{IsKeyed}
use k3_control_plane.Scheduler.{StringSet}
use k3_control_plane.Controller.{Controller}
use k3_control_plane.Controller.Services.{removal_less, delete_all, active_of, scale_down}
use k3_control_plane.Controller.Services.Removal.{
  replicas_in, length-active_of, active_of-distinct, In-active_of, DifferentIds, IsStoredReplica,
  delete_all-replicas, SameBut, delete_all-SameBut, delete_all-shorter, pick_excess,
}

-- What holds between the first part and the second.
pub record ScaledDown (live : StringSet) (c : Controller) (v : Service) (c' : Controller)
    (active : List Assignment) : Type 0 where
  pub keyed : IsKeyed c'.store
  pub same : SameBut c.store c'.store
  pub shorter : length c'.store.assignments ≤ length c.store.assignments
  pub rest : c' ≡ record c { store = c'.store }
  pub counted : length active ≡ replicas_in live v c'.store
  pub at_most : length active ≤ pos_part v.replicas
  pub kept : replicas_in live v c.store ≤ pos_part v.replicas → c' ≡ c
  pub exact : pos_part v.replicas ≤ replicas_in live v c.store → length active ≡ pos_part v.replicas

module _ (live : StringSet) (c : Controller) (v : Service) (h : IsKeyed c.store)
    (natural : neg_part v.replicas ≡ 0) (fits : replicas_in live v c.store < 2 ^ 63) where
  after_deleting :
      pos_part v.replicas < length (active_of live c.store v)
      → (excess : List Assignment)
      → excess
        ≡ take
            (length (active_of live c.store v) - pos_part v.replicas)
            (sort_by removal_less (active_of live c.store v))
      → ScaledDown live c v
          (record c { store = delete_all excess c.store })
          (active_of live (delete_all excess c.store) v)
  after_deleting more excess e =
      let active = active_of live c.store v in
      let sorted = sort_by removal_less active in
      let n = length active - pos_part v.replicas in
      let distinct = AllPairs-take DifferentIds n sorted (
        AllPairs-sort_by removal_less DifferentIds (λ a b d e. d (sym e)) active
          (active_of-distinct live c.store v h)) in
      let stored = In-All (IsStoredReplica live v c.store) (take n sorted) (λ a i.
        In-active_of live c.store v a h
          ((In-sort_by removal_less a active).0 (In-take a n sorted i))) in
      let (keyed, left) = delete_all-replicas live v (take n sorted) c.store h distinct stored in
      let removed : length (take n sorted) ≡ n =
        length-take_le n sorted (omega (arith, length-sort_by removal_less active)) in
      let before = length-active_of live c.store v in
      let now_there = length-active_of live (delete_all (take n sorted) c.store) v in
      rw e (record {
        keyed = keyed;
        same = delete_all-SameBut (take n sorted) c.store;
        shorter = delete_all-shorter (take n sorted) c.store;
        rest = refl;
        counted = now_there;
        at_most = omega (arith, now_there, left, removed, before);
        kept = λ few. absurd (omega (arith, before));
        exact = λ _. omega (arith, now_there, left, removed, before);
      })

  -- The first part returns, and leaves at most the wanted number.
  pub scale_down-ScaledDown :
      (c' : Controller) × (active : List Assignment) × (scale_down live c v ≡ some (c', active))
      × ScaledDown live c v c' active
  unfolding scale_down
  scale_down-ScaledDown =
      let active = active_of live c.store v in
      elim (Bool-cases (ltb_ℤ v.replicas (pos (length active)))) [
        | inl more ↦
            let n = length active - pos_part v.replicas in
            let excess = take n (sort_by removal_less active) in
            let picked =
              pick_excess active v.replicas natural (ground arith)
                (rw (length-active_of live c.store v) fits) in
            (
              record c { store = delete_all excess c.store },
              active_of live (delete_all excess c.store) v,
              rw (more, picked),
              after_deleting (ground arith) excess refl,
            )
        | inr enough ↦
            let counted = length-active_of live c.store v in
            (
              c,
              active,
              rw enough,
              record {
                keyed = h;
                same = record { nodes = refl; services = refl; jobs = refl };
                shorter = omega arith;
                rest = refl;
                counted = counted;
                at_most = ground arith;
                kept = λ _. refl;
                exact = λ most. ground arith;
              },
            )
      ]
