-- ===== src/Controller/Ids.antt =====
-- The IDs of new assignments (`nextAssignmentID`, `randomSuffix` of internal/controller/controller.go):
-- "<owner>-<attempt>-<random>". What the random source returns and Unicode's lower case are not the
-- program's own: they are the two fields of `Env`.
use Prim.Native.Char.{code}
use Prim.Native.String.{◌++◌}
use k3_control_plane.Base.{
  ℕ, zero, suc, ◌+◌, ◌/◌, ◌%◌, String, Option, none, some, List, [], ◌∷◌, nat_eq, ltb,
  if◌then◌else◌,
}
use k3_control_plane.Base.Int.{ℤ, pos, negsuc}
use k3_control_plane.Store.{MemoryStore, has_assignment}

pub record Env : Type 0 where
  -- The bytes that the n-th call of `rand.Read` on five bytes returns.
  pub random_bytes : ℕ → List ℕ
  -- `strings.ToLower`
  pub to_lower : String → String

-- `strings.ReplaceAll(s, " ", "-")`
unfoldable pub replace_spaces : String → String
replace_spaces String.[] = ""
replace_spaces (String.◌∷◌ c s) =
    if nat_eq (code c) 32
    then "-" ++ replace_spaces s
    else (String.◌∷◌ c String.[]) ++ replace_spaces s

-- The character of a text at a place, as a text.
unfoldable pub letter : ℕ → String → String
letter n String.[] = ""
letter zero (String.◌∷◌ c s) = String.◌∷◌ c String.[]
letter (suc n) (String.◌∷◌ c s) = letter n s

-- `%d`, with as many rounds as there may be digits.
unfoldable pub decimal : ℕ → ℕ → String
decimal zero n = ""
decimal (suc rounds) n =
    let higher = decimal rounds (n / 10) in
    let last = letter (n % 10) "0123456789" in if ltb n 10 then last else higher ++ last

unfoldable pub show_int : ℤ → String
show_int (pos n) = decimal 20 n
show_int (negsuc n) = "-" ++ decimal 20 (n + 1)

abbrev pub suffix_alphabet : String
suffix_alphabet = "bcdfghjklmnpqrstvwxz2456789"

unfoldable pub random_suffix : List ℕ → String
random_suffix [] = ""
random_suffix (b ∷ buf) = letter (b % 27) suffix_alphabet ++ random_suffix buf

unfoldable pub assignment_id : Env → String → ℤ → ℕ → String
assignment_id env owner attempt draw =
    let safe_owner = replace_spaces (env.to_lower owner) in
    (safe_owner ++ ("-" ++ (show_int attempt ++ "-"))) ++ random_suffix (env.random_bytes draw)

-- The loop of `nextAssignmentID`, with the number of draws that it may make: the ID, and the draws
-- made so far.
unfoldable pub next_assignment_id : Env → ℕ → MemoryStore → String → ℤ → ℕ → Option (String × ℕ)
next_assignment_id env zero s owner attempt draws = none
next_assignment_id env (suc fuel) s owner attempt draws =
    let rest = next_assignment_id env fuel s owner attempt (suc draws) in
    let id = assignment_id env owner attempt draws in
    if has_assignment s id then rest else some (id, suc draws)
