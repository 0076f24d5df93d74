-- ===== src/Controller/Services/Fill.antt =====
-- The second part of `reconcileService` (internal/controller/services.go): new replicas until there are
-- as many as wanted, or until no node is eligible.
use k3_control_plane.Base.{
  ℕ, zero, suc, ◌+◌, ◌≤◌, ◌<◌, String, true, ◌≡◌, ◌⊎◌, refl, ◌∙◌, ap, eq_iff, none, some, [], ◌∷◌,
  inl, inr, arith, Option-cases, length, count_by,
}
use k3_control_plane.Base.Int.{pos}
use k3_control_plane.Base.Assoc
use k3_control_plane.Base.Assoc.{Assoc, get-put, count_by-put}
use k3_control_plane.Api.{Time, Service, Assignment}
use k3_control_plane.Api.Phases.{is_active_phase, phase_eq, kind_eq}
use k3_control_plane.Api.Clone.{clone_assignment_lem}
use k3_control_plane.Store.{list_nodes, list_assignments, save_assignment, is_owned_by}
use k3_control_plane.Store.Keyed.{IsKeyed, save_assignment-IsKeyed}
use k3_control_plane.Scheduler.{StringSet, choose_node}
use k3_control_plane.Controller.{Controller, known_nodes, live_set}
use k3_control_plane.Controller.Ids.{Env}
use k3_control_plane.Controller.Fresh.{IsSpread, next_assignment_id_total}
use k3_control_plane.Controller.Placement.{OneTimeout, chosen_live}
use k3_control_plane.Controller.Services.{service_assignment, is_active_live, fill}
use k3_control_plane.Controller.Services.Removal.{is_replica, replicas_in, SameBut}

-- No node is eligible for another replica.
abbrev pub NoNode : Time → Service → Controller → Type 0
NoNode now v c =
    choose_node c.scheduler now (known_nodes c) (list_assignments c.store) v.resources v.placement
      v.ports
    ≡ none

-- What the loop does to the controller in `missing` rounds.
pub record Filled (live : StringSet) (now : Time) (v : Service) (missing : ℕ) (c c' : Controller)
    : Type 0 where
  pub keyed : IsKeyed c'.store
  pub same : SameBut c.store c'.store
  pub rest : c' ≡ record c { store = c'.store; draws = c'.draws }
  pub kept :
      (j : String) (a : Assignment)
      → Assoc.get j c.store.assignments ≡ some a
      → Assoc.get j c'.store.assignments ≡ some a
  pub longer : length c'.store.assignments ≤ length c.store.assignments + missing
  pub count :
      (replicas_in live v c'.store ≡ replicas_in live v c.store + missing)
      ⊎ ((replicas_in live v c'.store < replicas_in live v c.store + missing) × NoNode now v c')

pub length-put_le :
    {V : Type 0} (k : String) (v : V) (m : Assoc V) → length (Assoc.put k v m) ≤ length m + 1
unfolding Assoc.put
length-put_le k v [] = omega arith
length-put_le k v ((j, w) ∷ m) = ground (arith, length-put_le k v m)

-- The controller after one round.
abbrev placed : Controller → Service → Time → String → String → ℕ → Controller
placed c v now node_id id draws = record c {
  store = save_assignment c.store (service_assignment v id node_id now);
  draws = draws;
}

module _ (now : Time) (v : Service) (c : Controller) (node_id id : String) (draws : ℕ)
    (h : IsKeyed c.store) (fresh : Assoc.get id c.store.assignments ≡ none) where
  saved-assignments :
      (placed c v now node_id id draws).store.assignments
      ≡ Assoc.put id (service_assignment v id node_id now) c.store.assignments
  unfolding save_assignment service_assignment
  saved-assignments = rw clone_assignment_lem

  placed-kept :
      (j : String) (a : Assignment)
      → Assoc.get j c.store.assignments ≡ some a
      → Assoc.get j (placed c v now node_id id draws).store.assignments ≡ some a
  placed-kept j a g =
      ap (Assoc.get j) saved-assignments
      ∙ ground (
        arith,
        get-put id j (service_assignment v id node_id now) c.store.assignments,
        eq_iff id j,
        fresh,
      )

  replicas-placed :
      (live : StringSet)
      → Assoc.has node_id live ≡ true
      → replicas_in live v (placed c v now node_id id draws).store ≡ replicas_in live v c.store + 1
  unfolding service_assignment is_active_live is_owned_by is_active_phase phase_eq kind_eq
  replicas-placed live alive =
      let new : is_replica live v (service_assignment v id node_id now) ≡ true =
        ground (arith, alive, eq_iff v.name v.name) in
      ap (λ (m : Assoc Assignment). count_by (is_replica live v) (Assoc.values m)) saved-assignments
      ∙ count_by-put (λ (a : Assignment). a.id) (is_replica live v) id
          (service_assignment v id node_id now) c.store.assignments fresh
      ∙ rw new

  placed-SameBut : SameBut c.store (placed c v now node_id id draws).store
  unfolding save_assignment
  placed-SameBut = record { nodes = refl; services = refl; jobs = refl }

  live_set-placed : live_set now (placed c v now node_id id draws) ≡ live_set now c
  unfolding live_set known_nodes list_nodes save_assignment
  live_set-placed = refl

  placed-Filled :
      (missing : ℕ) (c' : Controller)
      → Assoc.has node_id (live_set now c) ≡ true
      → Filled (live_set now c) now v missing (placed c v now node_id id draws) c'
      → Filled (live_set now c) now v (suc missing) c c'
  placed-Filled missing c' alive f =
      let one = replicas-placed (live_set now c) alive in
      record {
        keyed = f.keyed;
        same = record {
          nodes = f.same.nodes ∙ placed-SameBut.nodes;
          services = f.same.services ∙ placed-SameBut.services;
          jobs = f.same.jobs ∙ placed-SameBut.jobs;
        };
        rest = f.rest;
        kept = λ j a g. f.kept j a (placed-kept j a g);
        longer = omega (
          arith,
          f.longer,
          ap (λ (m : Assoc Assignment). length m) saved-assignments,
          length-put_le id (service_assignment v id node_id now) c.store.assignments,
        );
        count = elim f.count [
          | inl all ↦ inl (omega (arith, all, one))
          | inr (fewer, stuck) ↦ inr (omega (arith, fewer, one), stuck)
        ];
      }

-- The loop returns, where the random source does not repeat itself within `fuel` draws and `fuel` is
-- not less than the number of assignments that there will be.
pub fill-Filled :
    (env : Env) (fuel : ℕ) (now : Time) (v : Service) (missing : ℕ) (c : Controller)
    → IsKeyed c.store
    → OneTimeout c
    → IsSpread env fuel
    → length c.store.assignments + missing ≤ fuel
    → (c' : Controller) × (fill env fuel now v missing c ≡ some c')
      × Filled (live_set now c) now v missing c c'
unfolding fill
fill-Filled env fuel now v zero c h one spread room = (
  c,
  refl,
  record {
    keyed = h;
    same = record { nodes = refl; services = refl; jobs = refl };
    rest = refl;
    kept = λ j a g. g;
    longer = omega arith;
    count = inl (omega arith);
  },
)
fill-Filled env fuel now v (suc missing) c h one spread room =
    elim (Option-cases (
      choose_node c.scheduler now (known_nodes c) (list_assignments c.store) v.resources v.placement
        v.ports)) [
          | inl stuck ↦ (
            c,
            rw (stuck, fill),
            record {
              keyed = h;
              same = record { nodes = refl; services = refl; jobs = refl };
              rest = refl;
              kept = λ j a g. g;
              longer = omega arith;
              count = inr (omega arith, stuck);
            },
          )
          | inr (node_id, chosen) ↦
              let (id, draws, found, fresh) =
                next_assignment_id_total env fuel c.store v.name (pos 1) c.draws spread
                  (omega arith) in
              let c₁ = placed c v now node_id id draws in
              let saved = saved-assignments now v c node_id id draws h fresh in
              let alive =
                chosen_live now c (list_assignments c.store) v.resources v.placement v.ports h one
                  chosen in
              let (c', run, f) =
                fill-Filled env fuel now v missing c₁ (save_assignment-IsKeyed c.store _ h) one
                  spread
                  (omega (
                    arith,
                    ap (λ (m : Assoc Assignment). length m) saved,
                    length-put_le id (service_assignment v id node_id now) c.store.assignments,
                  )) in
              (
                c',
                rw (chosen, found, fill) run,
                placed-Filled now v c node_id id draws h fresh missing c' alive
                    (rw (live_set-placed now v c node_id id draws h fresh) at f),
              )
        ]
