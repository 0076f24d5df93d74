-- ===== src/Scheduler/Scan.antt =====
-- What the third loop of `ChooseNode` (internal/scheduler/scheduler.go) finds.
use k3_control_plane.Base.{
  String, Bool, true, false, ◌≡◌, refl, ◌∙◌, sym, ◌||◌, not, none, some, List, [], ◌∷◌, inl, inr,
  arith, Bool-cases, if◌then◌else◌, In, All-In, str_ltb, str_ltb_irrefl,
}
use mathlib.Core.Bool.{false≢true}
use mathlib.Core.Option.{some-injective, none-ne-some}
use k3_control_plane.Base.Int.{ℤ, ltb_ℤ}
use k3_control_plane.Base.Assoc
use k3_control_plane.Base.Assoc.{Assoc}
use k3_control_plane.Base.Sort.{IsSorted}
use k3_control_plane.Api.{ResourceRequirements, Placement, Node}
use k3_control_plane.Store.{node_less}
use k3_control_plane.Scheduler.{Tally, ports_clash, matches_placement, available_on, first_node}

-- The tests of the third loop on one node.
unfoldable pub accepts : Tally → ResourceRequirements → Placement → List ℤ → Node → Bool
accepts t req placement ports node =
    let available = available_on t node in
    if not (matches_placement node.labels placement.required_labels)
    then false
    else if ltb_ℤ available.cpu req.cpu || ltb_ℤ available.memory req.memory
    then false
    else not (ports_clash (Assoc.get_or [] node.id t.used_ports) ports)

module _ (t : Tally) (req : ResourceRequirements) (placement : Placement) (ports : List ℤ) where
  first_node-cons :
      (n : Node) (nodes : List Node)
      → first_node t req placement ports (n ∷ nodes) ≡ (
          if accepts t req placement ports n
          then some n.id
          else first_node t req placement ports nodes)
  unfolding first_node accepts
  first_node-cons n nodes = ground arith

  pub first_node-some :
      (nodes : List Node) (id : String)
      → first_node t req placement ports nodes ≡ some id
      → IsSorted node_less nodes
      → (n : Node) × In n nodes
        × (n.id ≡ id)
        × (accepts t req placement ports n ≡ true)
        × ((m : Node)
            → In m nodes
            → accepts t req placement ports m ≡ true
            → str_ltb m.id id ≡ false)
  unfolding node_less
  first_node-some [] id h o = unfold first_node in cc
  first_node-some (n ∷ nodes) id h o = elim (Bool-cases (accepts t req placement ports n)) [
    | inl e ↦
        let same : n.id ≡ id = some-injective n.id id (rw (first_node-cons n nodes, e) at h) in
        (
          n,
          inl refl,
          same,
          e,
          λ m i a. elim i [
            | inl first ↦ rw (first, same) (str_ltb_irrefl id)
            | inr later ↦ rw (← same) (All-In (λ y. str_ltb y.id n.id ≡ false) m nodes o.0 later)
          ],
        )
    | inr e ↦
        let (k, i, same, a, least) =
          first_node-some nodes id (rw (first_node-cons n nodes, e) at h) o.1 in
        (
          k,
          inr i,
          same,
          a,
          λ m j b. elim j [
            | inl first ↦ absurd (false≢true (sym e ∙ rw (← first) b))
            | inr later ↦ least m later b
          ],
        )
  ]

  pub first_node-none :
      (nodes : List Node) (m : Node)
      → first_node t req placement ports nodes ≡ none
      → In m nodes
      → accepts t req placement ports m ≡ false
  first_node-none [] m h i = absurd i
  first_node-none (n ∷ nodes) m h i = elim (Bool-cases (accepts t req placement ports n)) [
    | inl e ↦ absurd (none-ne-some n.id (sym (rw (first_node-cons n nodes, e) at h)))
    | inr e ↦ elim i [
      | inl first ↦ rw first e
      | inr later ↦ first_node-none nodes m (rw (first_node-cons n nodes, e) at h) later
    ]
  ]
