-- ===== src/Controller/Services/Converge.antt =====
-- `reconcileService` (internal/controller/services.go) as a whole.
use k3_control_plane.Base.{
  ℕ, ◌+◌, ◌-◌, ◌^◌, ◌≤◌, ◌<◌, String, ◌≡◌, ◌⊎◌, refl, ◌∙◌, sym, ap, subst, some, List, inl, inr,
  arith, length,
}
use k3_control_plane.Base.Int.{pos_part, neg_part}
use k3_control_plane.Base.Assoc.{Assoc}
use k3_control_plane.Api.{Time, Service, ServiceStatus, Assignment}
use k3_control_plane.Store.{MemoryStore, list_nodes, list_assignments, update_service_status}
use k3_control_plane.Store.Keyed.{IsKeyed, update_service_status-IsKeyed}
use k3_control_plane.Controller.{Controller, known_nodes, live_set}
use k3_control_plane.Controller.Ids.{Env}
use k3_control_plane.Controller.Fresh.{IsSpread}
use k3_control_plane.Controller.Placement.{OneTimeout}
use k3_control_plane.Controller.Stepped.{Stepped}
use k3_control_plane.Controller.Services.{
  scale_down, fill, missing_replicas, service_status, reconcile_service,
}
use k3_control_plane.Controller.Services.Removal.{replicas_in}
use k3_control_plane.Controller.Services.ScaleDown.{scale_down-ScaledDown}
use k3_control_plane.Controller.Services.Fill.{NoNode, Filled, fill-Filled}

-- A status update leaves the nodes, the jobs and the assignments alone.
update_service_status_frame :
    (s : MemoryStore) (name : String) (status : ServiceStatus)
    → ((update_service_status s name status).0.nodes ≡ s.nodes)
      × ((update_service_status s name status).0.jobs ≡ s.jobs)
      × ((update_service_status s name status).0.assignments ≡ s.assignments)
unfolding update_service_status
update_service_status_frame s name status = (ground arith, ground arith, ground arith)

-- The live set and the choice of a node depend on the nodes and the assignments alone.
live_set_same :
    (now : Time) (c : Controller) (s : MemoryStore)
    → s.nodes ≡ c.store.nodes
    → live_set now (record c { store = s }) ≡ live_set now c
unfolding live_set known_nodes list_nodes
live_set_same now c s e = rw e

NoNode-same :
    (now : Time) (v : Service) (c : Controller) (s : MemoryStore)
    → s.nodes ≡ c.store.nodes
    → s.assignments ≡ c.store.assignments
    → NoNode now v c
    → NoNode now v (record c { store = s })
unfolding known_nodes list_nodes list_assignments
NoNode-same now v c s en ea h = rw (en, ea) h

-- The three parts of a round, put together.
reconcile_service_parts :
    (env : Env) (fuel : ℕ) (now : Time) (c c₁ c₂ : Controller) (v : Service)
    (active : List Assignment)
    → scale_down (live_set now c) c v ≡ some (c₁, active)
    → fill env fuel now v (missing_replicas v active) c₁ ≡ some c₂
    → reconcile_service env fuel now c v
      ≡ some (record c₂ {
        store =
            (update_service_status c₂.store v.name
              (service_status (live_set now c) now v c₂.store)).0;
      })
unfolding reconcile_service
reconcile_service_parts env fuel now c c₁ c₂ v active down run =
    rw (down, run, reconcile_service) refl

-- A round for one service, with what it keeps for the rounds after it.
pub reconcile_service-Stepped :
    (env : Env) (fuel : ℕ) (now : Time) (c : Controller) (v : Service)
    → IsKeyed c.store
    → OneTimeout c
    → IsSpread env fuel
    → neg_part v.replicas ≡ 0
    → replicas_in (live_set now c) v c.store < 2 ^ 63
    → length c.store.assignments + pos_part v.replicas ≤ fuel
    → (c' : Controller) × (reconcile_service env fuel now c v ≡ some c')
      × Stepped (pos_part v.replicas) c c'
      × (c'.store.jobs ≡ c.store.jobs)
      × ((replicas_in (live_set now c) v c'.store ≡ pos_part v.replicas)
          ⊎ ((replicas_in (live_set now c) v c'.store < pos_part v.replicas) × NoNode now v c'))
unfolding missing_replicas
reconcile_service-Stepped env fuel now c v h one spread natural fits room =
    let live = live_set now c in
    let (c₁, active, down, d) = scale_down-ScaledDown live c v h natural fits in
    let same_live : live_set now c₁ ≡ live =
      ap (live_set now) d.rest ∙ live_set_same now c c₁.store d.same.nodes in
    let one₁ : OneTimeout c₁ = subst OneTimeout (sym d.rest) one in
    let missing = pos_part v.replicas - length active in
    let (c₂, run, f') =
      fill-Filled env fuel now v missing c₁ d.keyed one₁ spread (omega (arith, d.shorter)) in
    let f : Filled live now v missing c₁ c₂ =
      subst (λ l. Filled l now v missing c₁ c₂) same_live f' in
    let status = service_status live now v c₂.store in
    let s = (update_service_status c₂.store v.name status).0 in
    let (nodes, jobs, assignments) = update_service_status_frame c₂.store v.name status in
    let counted : replicas_in live v s ≡ replicas_in live v c₂.store =
      ap (λ (m : Assoc Assignment). replicas_in live v (record c₂.store { assignments = m }))
        assignments in
    (
      record c₂ { store = s },
      reconcile_service_parts env fuel now c c₁ c₂ v active down run,
      record {
        keyed = update_service_status-IsKeyed c₂.store v.name status f.keyed;
        one = subst OneTimeout (sym f.rest) one₁;
        longer = omega (
          arith,
          ap (λ (m : Assoc Assignment). length m) assignments,
          f.longer,
          d.shorter,
          d.at_most,
        );
      },
      jobs ∙ (f.same.jobs ∙ d.same.jobs),
      elim f.count [
        | inl all ↦ inl (omega (arith, counted, all, d.counted, d.at_most))
        | inr (fewer, stuck) ↦ inr (
          omega (arith, counted, fewer, d.counted, d.at_most),
          NoNode-same now v c₂ s nodes assignments stuck,
        )
      ],
    )

-- A round for one service returns, and leaves as many replicas on live nodes as are wanted, or
-- fewer with no node eligible for another. The store is well-formed, the number wanted is not
-- negative, there are fewer than 2^63 replicas, the scheduler has the timeout of the controller,
-- and the random source gives as many different suffixes in a row as there are stored assignments
-- and wanted replicas.
pub reconcile_service_converges :
    (env : Env) (fuel : ℕ) (now : Time) (c : Controller) (v : Service)
    → IsKeyed c.store
    → OneTimeout c
    → IsSpread env fuel
    → neg_part v.replicas ≡ 0
    → replicas_in (live_set now c) v c.store < 2 ^ 63
    → length c.store.assignments + pos_part v.replicas ≤ fuel
    → (c' : Controller) × (reconcile_service env fuel now c v ≡ some c')
      × IsKeyed c'.store
      × ((replicas_in (live_set now c) v c'.store ≡ pos_part v.replicas)
          ⊎ ((replicas_in (live_set now c) v c'.store < pos_part v.replicas) × NoNode now v c'))
reconcile_service_converges env fuel now c v h one spread natural fits room =
    let (c', run, step, _, count) =
      reconcile_service-Stepped env fuel now c v h one spread natural fits room in
    (c', run, step.keyed, count)
