-- ===== src/Sqlite/Order.antt =====
-- The orders in which the queries of `SQLiteStore` (internal/store/sqlite.go) list rows; the creation time, as
-- nanoseconds from 1970, orders as the time does.
use k3_control_plane.Base.{
  ◌+◌, ◌≡◌, arith, nat_eq, ltb, str_ltb_asym, str_ltb_trans, str_ltb_neg_trans,
}
use k3_control_plane.Base.Int.{
  ℤ, pos, negsuc, pos_part, neg_part, sub_ℕ, wrap64, int_eq, ltb_ℤ, int_eq_iff,
}
use k3_control_plane.Base.Sort.{IsOrder}
use k3_control_plane.Api.{Time}
use k3_control_plane.Sqlite.Tables.{row_less, key_less}
use k3_control_plane.Sqlite.{unix_nano}
use k3_control_plane.Sqlite.Represents.{IsTimely, epoch}

-- Nanoseconds from 1970 are exact where an int64 counts them.
unix_nano_exact : (t : Time) → IsTimely t → unix_nano t ≡ sub_ℕ t epoch
unfolding unix_nano wrap64
unix_nano_exact t h = ground (arith, h)

pub unix_nano-eq :
    (t u : Time) → IsTimely t → IsTimely u → int_eq (unix_nano t) (unix_nano u) ≡ nat_eq t u
unix_nano-eq t u h k =
    rw (unix_nano_exact t h, unix_nano_exact u k)
      (ground (arith, int_eq_iff (sub_ℕ t epoch) (sub_ℕ u epoch)))

pub unix_nano-ltb :
    (t u : Time) → IsTimely t → IsTimely u → ltb_ℤ (unix_nano t) (unix_nano u) ≡ ltb t u
unix_nano-ltb t u h k = rw (unix_nano_exact t h, unix_nano_exact u k) (ground arith)

pub key_less-IsOrder : {V : Type 0} → IsOrder (key_less {V = V})
unfolding key_less
key_less-IsOrder = record {
  asym = λ a b. str_ltb_asym a.0 b.0;
  trans = λ a b c. str_ltb_trans a.0 b.0 c.0;
  neg_trans = λ a b c. str_ltb_neg_trans a.0 b.0 c.0;
}

int_eq-cross : (a b : ℤ) → int_eq a b ≡ nat_eq (pos_part a + neg_part b) (pos_part b + neg_part a)
unfolding int_eq
int_eq-cross (pos m) (pos n) = ground arith
int_eq-cross (negsuc m) (negsuc n) = ground arith
int_eq-cross (pos m) (negsuc n) = ground arith
int_eq-cross (negsuc m) (pos n) = ground arith

pub row_less-IsOrder : IsOrder row_less
unfolding row_less
row_less-IsOrder = record {
  asym = λ a b h.
      let ab = int_eq-cross a.1.created_at b.1.created_at in
      let ba = int_eq-cross b.1.created_at a.1.created_at in
      ground (arith, str_ltb_asym a.0 b.0, ab, ba);
  trans = λ a b c h k.
      let ab = int_eq-cross a.1.created_at b.1.created_at in
      let bc = int_eq-cross b.1.created_at c.1.created_at in
      let ac = int_eq-cross a.1.created_at c.1.created_at in
      ground (arith, str_ltb_trans a.0 b.0 c.0, ab, bc, ac);
  neg_trans = λ a b c h k.
      let ba = int_eq-cross b.1.created_at a.1.created_at in
      let cb = int_eq-cross c.1.created_at b.1.created_at in
      let ca = int_eq-cross c.1.created_at a.1.created_at in
      ground (arith, str_ltb_neg_trans a.0 b.0 c.0, ba, cb, ca);
}
