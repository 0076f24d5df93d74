-- ===== src/System.antt =====
-- The controller (internal/controller) with its clients: requests to its server and rounds of its loop, in any
-- order, and restarts on the store that is there (cmd/controller/main.go).
--
-- A request and a round are one step each, though in the code a request may come between two store calls
-- of a round.
use k3_control_plane.Base.{
  ℕ, ◌+◌, ◌^◌, ◌≤◌, ◌<◌, ◌≡◌, true, refl, sym, ap, ◌∙◌, subst, In-All, some, length, All, arith,
}
use k3_control_plane.Base.Every.{Every-empty}
use k3_control_plane.Base.Int.{ℤ, pos, negsuc, ltb_ℤ, neg_part}
use k3_control_plane.Api.{Time}
use k3_control_plane.Store.{new_memory_store, list_services, list_jobs}
use k3_control_plane.Store.Keyed.{new-IsKeyed}
use k3_control_plane.Store.Listing.{In-list_services}
use k3_control_plane.Store.Admissible.{IsAdmissible, HasId, IsService, IsJob, IsTimed}
use k3_control_plane.Scheduler.{Scheduler, Duration}
use k3_control_plane.Controller.{Controller, new_controller}
use k3_control_plane.Controller.Ids.{Env}
use k3_control_plane.Controller.Fresh.{IsSpread}
use k3_control_plane.Controller.Reconcile.{reconcile}
use k3_control_plane.Controller.Rounds.{IsNatural, wanted, reconcile_returns}
use k3_control_plane.Controller.Sound.{IsSound, Keeps, reconcile-Keeps}
use k3_control_plane.Http.{Request, Decoders}
use k3_control_plane.Http.Auth.{Auth}
use k3_control_plane.Http.Routes.{serve_http}
use k3_control_plane.Http.Invariant.{serve_http-Keeps}

pub data Step (env : Env) (auth : Auth) (json : Decoders) : Controller → Controller → Type 0 where
  request :
      (now : Time) (r : Request) (c : Controller)
      → Step env auth json c (serve_http auth json now r c).0
  round :
      (fuel : ℕ) (now : Time) (c c' : Controller)
      → reconcile env fuel now c ≡ some c'
      → Step env auth json c c'
  restart :
      (timeout : Duration) (draws : ℕ) (c : Controller)
      → Step env auth json c
          (record (new_controller c.store (record { node_timeout = timeout }) timeout) {
            draws = draws;
          })

-- The states that a controller comes to that started with an empty store.
pub data Reachable (env : Env) (auth : Auth) (json : Decoders) : Controller → Type 0 where
  start :
      (timeout : Duration)
      → Reachable env auth json
          (new_controller new_memory_store (record { node_timeout = timeout }) timeout)
  after :
      (c c' : Controller)
      → Reachable env auth json c
      → Step env auth json c c'
      → Reachable env auth json c'

new-IsAdmissible : IsAdmissible new_memory_store
new-IsAdmissible = record {
  keyed = new-IsKeyed;
  nodes = Every-empty HasId;
  services = Every-empty IsService;
  jobs = Every-empty IsJob;
  assignments = Every-empty IsTimed;
}

natural_of_wanted : (n : ℤ) → ltb_ℤ (pos 0) n ≡ true → neg_part n ≡ 0
natural_of_wanted (pos n) h = refl
natural_of_wanted (negsuc n) h = ground arith

module _ (env : Env) (auth : Auth) (json : Decoders) where
  Step-IsSound : {c c' : Controller} → Step env auth json c c' → IsSound c → IsSound c'
  Step-IsSound (request now r c) h =
      let (admissible, scheduler, timeout) = serve_http-Keeps auth json now r c h.admissible in
      record {
        admissible = admissible;
        one = ap (λ (x : Scheduler). x.node_timeout) scheduler ∙ (h.one ∙ sym timeout);
      }
  Step-IsSound (round fuel now c c' e) h = subst Keeps e (reconcile-Keeps env fuel now c h)
  Step-IsSound (restart timeout draws c) h = record { admissible = h.admissible; one = refl }

  -- In every state that a controller comes to which started with an empty store, by requests to
  -- its server from anyone, rounds and restarts in any order, its store is admissible and its
  -- timeout is the one of its scheduler: the store is well-formed, every service has a name and
  -- an image and wants a replica or more, every job has a name and an image, every node has an
  -- ID, and of every assignment the time of the end is known exactly when its phase is terminal,
  -- and the time of the start while it runs.
  pub Reachable-IsSound : {c : Controller} → Reachable env auth json c → IsSound c
  Reachable-IsSound (start timeout) = record { admissible = new-IsAdmissible; one = refl }
  Reachable-IsSound (after c c' before step) = Step-IsSound step (Reachable-IsSound before)

  IsNatural-services : (c : Controller) → IsSound c → All IsNatural (list_services c.store)
  IsNatural-services c h = In-All IsNatural (list_services c.store) λ v i.
      let stored = (In-list_services c.store v h.admissible.keyed).0 i in
      let (named, shown, some_wanted) = h.admissible.services v.name v stored in
      natural_of_wanted v.replicas some_wanted

  -- In every state that a controller comes to which started with an empty store, by requests to
  -- its server from anyone, rounds and restarts in any order, a further round returns, and what
  -- it returns is such a state. The random source gives as many different suffixes in a row as
  -- there are stored assignments, wanted replicas and jobs, fewer than 2^63.
  pub reachable_round_returns :
      (fuel : ℕ) (now : Time) (c : Controller)
      → Reachable env auth json c
      → IsSpread env fuel
      → fuel < 2 ^ 63
      → length c.store.assignments + wanted (list_services c.store) + length (list_jobs c.store)
        ≤ fuel
      → (c' : Controller) × (reconcile env fuel now c ≡ some c') × Reachable env auth json c'
  reachable_round_returns fuel now c reached spread small room =
      let h = Reachable-IsSound reached in
      let (c', run, keyed, one) =
        reconcile_returns env fuel now c h.admissible.keyed h.one spread small
          (IsNatural-services c h) room in
      (c', run, after c c' reached (round fuel now c c' run))
