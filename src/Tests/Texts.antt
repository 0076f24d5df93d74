-- ===== src/Tests/Texts.antt =====
-- How values are written as texts and read back, for the encoding of the objects of internal/api.
use Prim.Native.Char.{Char}
use Prim.Native.String.{String, [], ◌∷◌}
use Prim.Native.Nat.{ℕ, zero, suc}
use mathlib.Core.List.{List}
use k3_control_plane.Base.{
  Bool, true, false, ◌≡◌, refl, Option, none, some, arith, nat_eq, if◌then◌else◌, length,
}
use k3_control_plane.Base.Int.{ℤ, pos, negsuc}
use k3_control_plane.Base.Strings.{char_eq}

-- A value is written in front of a text, and read off it.
pub record Format (A : Type 0) : Type 0 where
  pub print : A → String → String
  pub parse : String → Option (A × String)
  pub parse_print : (a : A) (rest : String) → parse (print a rest) ≡ some (a, rest)

abbrev print_text : String → String → String
print_text [] rest = "." ∷ rest
print_text (c ∷ s) rest = "+" ∷ c ∷ print_text s rest

abbrev cons_text : Option (String × String) → Char → Option (String × String)
cons_text none c = none
cons_text (some (s, rest)) c = some (c ∷ s, rest)

abbrev parse_text : String → Option (String × String)
parse_text [] = none
parse_text (m ∷ []) = if char_eq m "." then some ([], []) else none
parse_text (m ∷ c ∷ s) =
    let later = parse_text s in if char_eq m "." then some ([], c ∷ s) else cons_text later c

pub parse_print_text : (s rest : String) → parse_text (print_text s rest) ≡ some (s, rest)
parse_print_text [] [] = refl
parse_print_text [] (c ∷ rest) = refl
parse_print_text (c ∷ s) rest = rw (parse_print_text s rest) refl

abbrev pub text : Format String
text = record { print = print_text; parse = parse_text; parse_print = parse_print_text }

abbrev print_number : ℕ → String → String
print_number zero rest = "." ∷ rest
print_number (suc n) rest = "+" ∷ print_number n rest

abbrev suc_number : Option (ℕ × String) → Option (ℕ × String)
suc_number none = none
suc_number (some (n, rest)) = some (suc n, rest)

abbrev parse_number : String → Option (ℕ × String)
parse_number [] = none
parse_number (m ∷ s) =
    let later = parse_number s in if char_eq m "." then some (0, s) else suc_number later

pub parse_print_number :
    (n : ℕ) (rest : String) → parse_number (print_number n rest) ≡ some (n, rest)
parse_print_number zero rest = refl
parse_print_number (suc n) rest = rw (parse_print_number n rest) refl

abbrev pub number : Format ℕ
number = record { print = print_number; parse = parse_number; parse_print = parse_print_number }

module _ {A B : Type 0} where
  abbrev with_first : A → Option (B × String) → Option ((A × B) × String)
  with_first a none = none
  with_first a (some (b, rest)) = some ((a, b), rest)

  abbrev then_parse : Format B → Option (A × String) → Option ((A × B) × String)
  then_parse g none = none
  then_parse g (some (a, s)) = with_first a (g.parse s)

  pub pair : Format A → Format B → Format (A × B)
  pair f g = record {
    print = λ p rest. f.print p.0 (g.print p.1 rest);
    parse = λ s. then_parse g (f.parse s);
    parse_print = λ p rest. rw (f.parse_print p.0 (g.print p.1 rest), g.parse_print p.1 rest) refl;
  }

  abbrev map_parse : (B → A) → Option (B × String) → Option (A × String)
  map_parse from none = none
  map_parse from (some (b, rest)) = some (from b, rest)

  -- By way of another type.
  pub via : (to : A → B) (from : B → A) → ((a : A) → from (to a) ≡ a) → Format B → Format A
  via to from back f = record {
    print = λ a rest. f.print (to a) rest;
    parse = λ s. map_parse from (f.parse s);
    parse_print = λ a rest. rw (f.parse_print (to a) rest, back a) refl;
  }

module _ {A : Type 0} (f : Format A) where
  abbrev print_items : List A → String → String
  print_items List.[] rest = rest
  print_items (List.◌∷◌ x xs) rest = f.print x (print_items xs rest)

  abbrev cons_item : A → Option (List A × String) → Option (List A × String)
  cons_item x none = none
  cons_item x (some (xs, rest)) = some (List.◌∷◌ x xs, rest)

  abbrev parse_items : ℕ → String → Option (List A × String)
  parse_items zero s = some (List.[], s)
  parse_items (suc n) s = elim (f.parse s) [
    | none ↦ none
    | some (x, rest) ↦ cons_item x (parse_items n rest)
  ]

  parse_print_items :
      (xs : List A) (rest : String)
      → parse_items (length xs) (print_items xs rest) ≡ some (xs, rest)
  parse_print_items List.[] rest = refl
  parse_print_items (List.◌∷◌ x xs) rest =
      rw (f.parse_print x (print_items xs rest), parse_print_items xs rest) refl

  abbrev count_items : Option (ℕ × String) → Option (List A × String)
  count_items none = none
  count_items (some (n, s)) = parse_items n s

  pub items : Format (List A)
  items = record {
    print = λ xs rest. print_number (length xs) (print_items xs rest);
    parse = λ s. count_items (parse_number s);
    parse_print = λ xs rest.
        rw (parse_print_number (length xs) (print_items xs rest)) (parse_print_items xs rest);
  }

abbrev to_list : {A : Type 0} → Option A → List A
to_list none = List.[]
to_list (some a) = List.◌∷◌ a List.[]

abbrev of_list : {A : Type 0} → List A → Option A
of_list List.[] = none
of_list (List.◌∷◌ a _) = some a

of_list-to_list : {A : Type 0} (o : Option A) → of_list (to_list o) ≡ o
of_list-to_list none = refl
of_list-to_list (some a) = refl

abbrev sign_and_size : ℤ → Bool × ℕ
sign_and_size (pos n) = (true, n)
sign_and_size (negsuc n) = (false, n)

abbrev of_sign : Bool × ℕ → ℤ
of_sign (true, n) = pos n
of_sign (false, n) = negsuc n

of_sign_back : (n : ℤ) → of_sign (sign_and_size n) ≡ n
of_sign_back (pos n) = refl
of_sign_back (negsuc n) = refl

pub option : {A : Type 0} → Format A → Format (Option A)
option f = via to_list of_list of_list-to_list (items f)

pub truth : Format Bool
truth =
    via (λ b. if b then 1 else 0) (λ n. if nat_eq n 1 then true else false) (λ b. ground arith)
      number

pub integer : Format ℤ
integer = via sign_and_size of_sign of_sign_back (pair truth number)
