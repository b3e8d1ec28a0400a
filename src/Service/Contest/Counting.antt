-- ===== src/Service/Contest/Counting.antt =====
-- How many matches `CreateContest` makes.
use wcwcpp_backend.Base.{
  ℕ, zero, suc, ◌+◌, ◌*◌, ◌-◌, ◌≡◌, refl, List, [], ◌∷◌, ◌++◌, length, arith, Bool, true, false,
  Option, none, some, string_eq, nat_eq, if◌then◌else◌,
}
use wcwcpp_backend.Base.Int.{int_eq}
use wcwcpp_backend.Entity.{Country, Group}
use wcwcpp_backend.Service.Contest.{
  against, pairs, group_matches, knockout_matches, round_matches, generated_matches,
}

length-append : {A : Type 0} (xs ys : List A) → length (xs ++ ys) ≡ length xs + length ys
length-append [] ys = ground arith
length-append (x ∷ xs) ys = ground (arith, length-append xs ys)

length-against : (c : Country) (cs : List Country) → length (against c cs) ≡ length cs
length-against c [] = refl
length-against c (d ∷ cs) = ground (arith, length-against c cs)

length-pairs : (cs : List Country) → 2 * length (pairs cs) + length cs ≡ length cs * length cs
unfolding pairs
length-pairs [] = refl
length-pairs (c ∷ cs) =
    ground (arith, length-pairs cs, length-append (against c cs) (pairs cs), length-against c cs)

-- Twice the number of pairings of a list of groups.
abbrev pub pairings : List Group → ℕ
pairings [] = 0
pairings (g ∷ gs) = length g.countries * (length g.countries - 1) + pairings gs

square : (n : ℕ) → n * (n - 1) + n ≡ n * n
square zero = refl
square (suc n) = ground arith

length-group_matches : (gs : List Group) → 2 * length (group_matches gs) ≡ pairings gs
unfolding group_matches
length-group_matches [] = refl
length-group_matches (g ∷ gs) = ground (
  arith,
  length-group_matches gs,
  length-append (pairs g.countries) (group_matches gs),
  length-pairs g.countries,
  square (length g.countries),
)

pub length-generated_matches :
    (gs : List Group) → 2 * length (generated_matches gs) ≡ pairings gs + 2 * 32
unfolding generated_matches knockout_matches round_matches
length-generated_matches gs =
    ground (arith, length-group_matches gs, length-append (group_matches gs) knockout_matches)

abbrev pub is_absent : {A : Type 0} → Option A → Bool
is_absent none = true
is_absent (some a) = false

abbrev pub count : {A : Type 0} → (A → Bool) → List A → ℕ
count p [] = 0
count p (x ∷ xs) = let rest = count p xs in if p x then suc rest else rest

pub count-append :
    {A : Type 0} (p : A → Bool) (xs ys : List A) → count p (xs ++ ys) ≡ count p xs + count p ys
count-append p [] ys = ground arith
count-append p (x ∷ xs) ys = ground (arith, count-append p xs ys)
