-- ===== src/Controller/Stepped.antt =====
-- What each step of a round (`Reconcile` of internal/controller/controller.go) keeps.
use k3_control_plane.Base.{ℕ, ◌+◌, ◌≤◌, arith, length}
use k3_control_plane.Store.Keyed.{IsKeyed}
use k3_control_plane.Controller.{Controller}
use k3_control_plane.Controller.Placement.{OneTimeout}

-- The store is well-formed, the timeouts agree, and there are at most so many more assignments.
pub record Stepped (more : ℕ) (c c' : Controller) : Type 0 where
  pub keyed : IsKeyed c'.store
  pub one : OneTimeout c'
  pub longer : length c'.store.assignments ≤ length c.store.assignments + more

pub trans_steps :
    (m n total : ℕ) (c c' c'' : Controller)
    → m + n ≤ total
    → Stepped m c c'
    → Stepped n c' c''
    → Stepped total c c''
trans_steps m n total c c' c'' e h k = record {
  keyed = k.keyed;
  one = k.one;
  longer = omega (arith, e, h.longer, k.longer);
}
