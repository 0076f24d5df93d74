-- ===== src/Store/Order.antt =====
-- The `less` functions that the listings sort by (internal/store) are orders that tell any two
-- different keys apart.
use k3_control_plane.Base.{
  String, true, ◌≡◌, ◌⊎◌, arith, str_ltb, str_ltb_asym, str_ltb_trans, str_ltb_total,
  str_ltb_neg_trans,
}
use k3_control_plane.Base.Sort.{IsOrder}
use k3_control_plane.Api.{Assignment}
use k3_control_plane.Store.{node_less, service_less, job_less, assignment_less}

pub by_key-IsOrder :
    {A : Type 0} (key : A → String) → IsOrder (λ (a b : A). str_ltb (key a) (key b))
by_key-IsOrder key = record {
  asym = λ a b. str_ltb_asym (key a) (key b);
  trans = λ a b c. str_ltb_trans (key a) (key b) (key c);
  neg_trans = λ a b c. str_ltb_neg_trans (key a) (key b) (key c);
}

pub node_less-IsOrder : IsOrder node_less
unfolding node_less
node_less-IsOrder = by_key-IsOrder (λ n. n.id)

pub service_less-IsOrder : IsOrder service_less
unfolding service_less
service_less-IsOrder = by_key-IsOrder (λ s. s.name)

pub job_less-IsOrder : IsOrder job_less
unfolding job_less
job_less-IsOrder = by_key-IsOrder (λ j. j.name)

pub assignment_less-IsOrder : IsOrder assignment_less
unfolding assignment_less
assignment_less-IsOrder = record {
  asym = λ a b h. ground (arith, str_ltb_asym a.id b.id);
  trans = λ a b c h k. ground (arith, str_ltb_trans a.id b.id c.id);
  neg_trans = λ a b c h k. ground (arith, str_ltb_neg_trans a.id b.id c.id);
}

pub assignment_less_total :
    (a b : Assignment) → (a.id ≡ b.id) ⊎ (assignment_less a b ≡ true) ⊎ (assignment_less b a ≡ true)
unfolding assignment_less
assignment_less_total a b = ground (arith, str_ltb_total a.id b.id)
