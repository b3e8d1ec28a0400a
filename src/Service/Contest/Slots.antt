-- ===== src/Service/Contest/Slots.antt =====
-- The knockout matches that `CreateContest` makes.
use wcwcpp_backend.Base.{
  ℕ, zero, suc, ◌+◌, ◌≡◌, refl, List, [], ◌∷◌, ◌++◌, arith, Bool, ◌==◌, string_eq, nat_eq, ◌&&◌,
  if◌then◌else◌, ◌∙◌, ltb, leb,
}
use wcwcpp_backend.Base.Int.{pos, int_eq}
use wcwcpp_backend.Storage.Existing.{is_int}
use wcwcpp_backend.Entity.{Country, Group, Match}
use wcwcpp_backend.Service.Contest.{against, pairs, group_matches, knockout_matches, round_matches}
use wcwcpp_backend.Service.Contest.Counting.{count, count-append, is_absent}

-- A knockout match without countries at a round and an index.
abbrev pub is_slot : ℕ → ℕ → Match → Bool
is_slot round i m =
    m.round == pos round
    && is_int m.round_index (pos i)
    && is_absent m.country1
    && is_absent m.country2

-- The matches of each knockout round: the third-place match is in the last.
abbrev pub slots : ℕ → ℕ
slots round =
    if round == 1
    then 16
    else if round == 2
    then 8
    else if round == 3
    then 4
    else if round == 4
    then 2
    else if round == 5
    then 2
    else 0

against-slots :
    (round i : ℕ) (c : Country) (cs : List Country) → count (is_slot round i) (against c cs) ≡ 0
against-slots round i c [] = refl
against-slots round i c (d ∷ cs) = ground (arith, against-slots round i c cs)

pairs-slots : (round i : ℕ) (cs : List Country) → count (is_slot round i) (pairs cs) ≡ 0
unfolding pairs
pairs-slots round i [] = refl
pairs-slots round i (c ∷ cs) = ground (
  arith,
  pairs-slots round i cs,
  count-append (is_slot round i) (against c cs) (pairs cs),
  against-slots round i c cs,
)

pub group-slots : (round i : ℕ) (gs : List Group) → count (is_slot round i) (group_matches gs) ≡ 0
unfolding group_matches
group-slots round i [] = refl
group-slots round i (g ∷ gs) = ground (
  arith,
  group-slots round i gs,
  count-append (is_slot round i) (pairs g.countries) (group_matches gs),
  pairs-slots round i g.countries,
)

round-slots :
    (round i r from n : ℕ)
    → count (is_slot round i) (round_matches (pos r) from n)
      ≡ (if r == round && leb from i && ltb i (from + n) then 1 else 0)
unfolding round_matches
round-slots round i r from zero = ground arith
round-slots round i r from (suc n) = ground (arith, round-slots round i r (suc from) n)

count-append_five :
    {A : Type 0} (p : A → Bool) (us vs xs ys zs : List A)
    → count p (us ++ vs ++ xs ++ ys ++ zs)
      ≡ count p us + count p vs + count p xs + count p ys + count p zs
count-append_five p us vs xs ys zs = ground (
  arith,
  count-append p us vs,
  count-append p (us ++ vs) xs,
  count-append p (us ++ vs ++ xs) ys,
  count-append p (us ++ vs ++ xs ++ ys) zs,
)

-- One if the slot is among the first n of a round.
abbrev in_round : ℕ → ℕ → ℕ → ℕ → ℕ
in_round round i r n = if r == round && leb 0 i && ltb i (0 + n) then 1 else 0

in_rounds :
    (round i : ℕ)
    → in_round round i 1 16
        + in_round round i 2 8
        + in_round round i 3 4
        + in_round round i 4 2
        + in_round round i 5 2
      ≡ (if ltb i (slots round) then 1 else 0)
in_rounds round i = ground arith

sums :
    {a b c d e a' b' c' d' e' : ℕ}
    → a ≡ a'
    → b ≡ b'
    → c ≡ c'
    → d ≡ d'
    → e ≡ e'
    → a + b + c + d + e ≡ a' + b' + c' + d' + e'
sums p q r s t = ground (arith, p, q, r, s, t)

pub knockout-slots :
    (round i : ℕ)
    → count (is_slot round i) knockout_matches ≡ (if ltb i (slots round) then 1 else 0)
unfolding knockout_matches
knockout-slots round i =
    count-append_five (is_slot round i) (round_matches (pos 1) 0 16) (round_matches (pos 2) 0 8)
      (round_matches (pos 3) 0 4) (round_matches (pos 4) 0 2) (round_matches (pos 5) 0 2)
    ∙ sums (round-slots round i 1 0 16) (round-slots round i 2 0 8) (round-slots round i 3 0 4)
        (round-slots round i 4 0 2) (round-slots round i 5 0 2)
    ∙ in_rounds round i
