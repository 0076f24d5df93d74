-- ===== src/Base/Attempt.antt =====
-- `if err := call(); err != nil { return … }`: a call gives the new state and whether there was no error.
use mathlib.Core.Path.{◌≡◌, refl}
use mathlib.Core.Bool.{Bool, true, false}
use k3_control_plane.Base.Tests.{if◌then◌else◌}

unfoldable pub attempt : {F R : Type 0} → F × Bool → (F → R) → (F → R) → R
attempt out fail next = if out.1 then next out.0 else fail out.0

pub attempt_case :
    {F R : Type 0} (P : R → Type 0) (out : F × Bool) (fail next : F → R)
    → (out.1 ≡ false → P (fail out.0))
    → (out.1 ≡ true → P (next out.0))
    → P (attempt out fail next)
unfolding attempt
attempt_case P (f, true) fail next c n = n refl
attempt_case P (f, false) fail next c n = c refl
