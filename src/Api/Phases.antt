-- ===== src/Api/Phases.antt =====
-- The phase of an assignment and the kind of its owner (internal/api/types.go), and the two tests
-- of internal/api/phases.go. Both are strings in Go, so a value may be none of the
-- constants: `other` and `unknown` stand for the texts that are not the text of a constant.
use k3_control_plane.Base.{String, Bool, true, false, ◌||◌, ◌≡◌, ◌↔◌, arith, ◌==◌, eq_iff}

pub data Kind : Type 0 where
  service job : Kind
  other : String → Kind

pub data Phase : Type 0 where
  pending running succeeded failed stopped lost : Phase
  unknown : String → Phase

unfoldable pub kind_eq : Kind → Kind → Bool
kind_eq service service = true
kind_eq job job = true
kind_eq (other s) (other t) = s == t
kind_eq _ _ = false

unfoldable pub phase_eq : Phase → Phase → Bool
phase_eq pending pending = true
phase_eq running running = true
phase_eq succeeded succeeded = true
phase_eq failed failed = true
phase_eq stopped stopped = true
phase_eq lost lost = true
phase_eq (unknown s) (unknown t) = s == t
phase_eq _ _ = false

unfoldable pub is_terminal_phase : Phase → Bool
is_terminal_phase succeeded = true
is_terminal_phase failed = true
is_terminal_phase stopped = true
is_terminal_phase lost = true
is_terminal_phase _ = false

unfoldable pub is_active_phase : Phase → Bool
unfolding phase_eq
is_active_phase phase = phase_eq phase pending || phase_eq phase running

pub phase_eq_iff : (p q : Phase) → (phase_eq p q ≡ true) ↔ (p ≡ q)
unfolding phase_eq
phase_eq_iff pending pending = ground arith
phase_eq_iff (unknown s) (unknown t) = ground (arith, eq_iff s t)
phase_eq_iff _ _ = ground arith

pub kind_eq_iff : (p q : Kind) → (kind_eq p q ≡ true) ↔ (p ≡ q)
unfolding kind_eq
kind_eq_iff service service = ground arith
kind_eq_iff (other s) (other t) = ground (arith, eq_iff s t)
kind_eq_iff _ _ = ground arith
