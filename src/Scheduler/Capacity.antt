-- ===== src/Scheduler/Capacity.antt =====
-- `ChooseNode` (internal/scheduler/scheduler.go) does not overcommit a node. Its sums are Go sums, so
-- this is said of amounts that are not negative and add up to less than 2^63.
use k3_control_plane.Base.{
  ℕ, ◌+◌, ◌^◌, ◌≤◌, ◌<◌, String, ◌≡◌, refl, ◌∙◌, ap, some, List, [], ◌∷◌, inl, inr, arith,
  Bool-cases, if◌then◌else◌, In, All, All-In,
}
use k3_control_plane.Base.Int.{
  ℤ, pos, negsuc, pos_part, neg_part, ◌≤ℤ◌, add64, sub64, add64_exact, sub64_exact, sub_ℕ,
}
use k3_control_plane.Api.{Time, ResourceRequirements, Placement, Node, Assignment, zero_resources}
use k3_control_plane.Scheduler.{Scheduler, choose_node, add_resources}
use k3_control_plane.Scheduler.Usage.{is_active_on, usage}
use k3_control_plane.Scheduler.Choice.{choose_node-some}

abbrev pub IsNonnegative : ResourceRequirements → Type 0
IsNonnegative r = (neg_part r.cpu ≡ 0) × (neg_part r.memory ≡ 0)

-- The sums without wrap-around.
unfoldable pub total_cpu : String → List Assignment → ℕ
total_cpu id [] = 0
total_cpu id (a ∷ rest) =
    (if is_active_on id a then pos_part a.resources.cpu else 0) + total_cpu id rest

unfoldable pub total_memory : String → List Assignment → ℕ
total_memory id [] = 0
total_memory id (a ∷ rest) =
    (if is_active_on id a then pos_part a.resources.memory else 0) + total_memory id rest

pub pos_of_nonnegative : (z : ℤ) → neg_part z ≡ 0 → z ≡ pos (pos_part z)
pos_of_nonnegative (pos n) h = refl
pos_of_nonnegative (negsuc n) h = absurd (omega arith)

usage_exact :
    (id : String) (xs : List Assignment) (c m : ℕ)
    → All (λ (a : Assignment). IsNonnegative a.resources) xs
    → c + total_cpu id xs < 2 ^ 63
    → m + total_memory id xs < 2 ^ 63
    → usage id xs (record { cpu = pos c; memory = pos m })
      ≡ record { cpu = pos (c + total_cpu id xs); memory = pos (m + total_memory id xs) }
unfolding usage total_cpu total_memory add_resources
usage_exact id [] c m h lc lm = ground arith
usage_exact id (a ∷ rest) c m h lc lm = elim (Bool-cases (is_active_on id a)) [
  | inl e ↦
      let c' = c + pos_part a.resources.cpu in
      let m' = m + pos_part a.resources.memory in
      let cpu_eq : add64 (pos c) a.resources.cpu ≡ pos c' =
        rw (pos_of_nonnegative a.resources.cpu h.0.0)
          (add64_exact c (pos_part a.resources.cpu) (ground arith)) in
      let memory_eq : add64 (pos m) a.resources.memory ≡ pos m' =
        rw (pos_of_nonnegative a.resources.memory h.0.1)
          (add64_exact m (pos_part a.resources.memory) (ground arith)) in
      rw (e, cpu_eq, memory_eq)
        (usage_exact id rest c' m' h.1 (ground arith) (ground arith) ∙ ground arith)
  | inr e ↦ rw e (usage_exact id rest c m h.1 (ground arith) (ground arith) ∙ ground arith)
]

-- The difference of two amounts that are in range covers a request only if the sum fits.
room :
    (capacity used req : ℤ) (n : ℕ)
    → used ≡ pos n
    → n < 2 ^ 63
    → neg_part capacity ≡ 0
    → pos_part capacity < 2 ^ 63
    → neg_part req ≡ 0
    → req ≤ℤ sub64 capacity used
    → n + pos_part req ≤ pos_part capacity
room capacity used req n e small positive fits asked h =
    let left : sub64 capacity used ≡ sub_ℕ (pos_part capacity) n =
      rw (e, pos_of_nonnegative capacity positive) (sub64_exact (pos_part capacity) n fits small) in
    let k : req ≤ℤ sub_ℕ (pos_part capacity) n = rw left at h in ground arith

abbrev pub InRange : ResourceRequirements → Type 0
InRange r = IsNonnegative r × (pos_part r.cpu < 2 ^ 63) × (pos_part r.memory < 2 ^ 63)

-- The node that is picked has room: what its active assignments use and what is asked for add up
-- to at most its capacity, for processor and memory, as true sums, if the amounts are not
-- negative, the capacities are below 2^63, and what is in use adds up to less than 2^63.
pub choose_node_capacity :
    (s : Scheduler) (now : Time) (nodes : List Node) (assignments : List Assignment)
    (req : ResourceRequirements) (placement : Placement) (ports : List ℤ) {id : String}
    → choose_node s now nodes assignments req placement ports ≡ some id
    → All (λ (a : Assignment). IsNonnegative a.resources) assignments
    → All (λ (n : Node). InRange n.capacity) nodes
    → IsNonnegative req
    → total_cpu id assignments < 2 ^ 63
    → total_memory id assignments < 2 ^ 63
    → (n : Node) × In n nodes
      × (n.id ≡ id)
      × (total_cpu id assignments + pos_part req.cpu ≤ pos_part n.capacity.cpu)
      × (total_memory id assignments + pos_part req.memory ≤ pos_part n.capacity.memory)
choose_node_capacity s now nodes xs req placement ports {id} h natural sized asked lc lm =
    let ((n, i, same, e), least) = choose_node-some s now nodes xs req placement ports h in
    let range = All-In (λ (n : Node). InRange n.capacity) n nodes sized i in
    let used : usage n.id xs zero_resources
        ≡ record { cpu = pos (0 + total_cpu id xs); memory = pos (0 + total_memory id xs) } =
      rw same (usage_exact id xs 0 0 natural (ground arith) (ground arith)) in
    (
      n,
      i,
      same,
      omega (
        arith,
        room n.capacity.cpu _ req.cpu _ (ap (λ (r : ResourceRequirements). r.cpu) used)
            (omega arith) range.0.0 range.1 asked.0 e.cpu,
      ),
      omega (
        arith,
        room n.capacity.memory _ req.memory _ (ap (λ (r : ResourceRequirements). r.memory) used)
            (omega arith) range.0.1 range.2 asked.1 e.memory,
      ),
    )
