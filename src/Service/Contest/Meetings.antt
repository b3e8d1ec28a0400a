-- ===== src/Service/Contest/Meetings.antt =====
-- Which countries meet in the group matches that `CreateContest` makes.
use wcwcpp_backend.Base.{
  ℕ, suc, ◌+◌, ◌*◌, ◌≡◌, ◌≢◌, refl, List, [], ◌∷◌, arith, String, Bool, true, false, Option, none,
  some, ◌==◌, string_eq, nat_eq, ◌&&◌, ◌||◌, if◌then◌else◌, Bool-cases, inl, inr, sym, ◌∙◌, ==_iff,
}
use wcwcpp_backend.Base.Int.{pos, int_eq}
use wcwcpp_backend.Entity.{Country, Group, Match}
use wcwcpp_backend.Service.Contest.{against, pairs, group_matches, knockout_matches, round_matches}
use wcwcpp_backend.Service.Contest.Counting.{count, count-append, is_absent}

abbrev pub has_code : String → Country → Bool
has_code x c = c.code == x

abbrev pub is_side : String → Option Country → Bool
is_side x none = false
is_side x (some c) = c.code == x

-- A group match of two countries, by their codes, on either side.
abbrev pub is_meeting : String → String → Match → Bool
is_meeting x y m =
    m.round == pos 0
    && is_absent m.round_index
    && ((is_side x m.country1 && is_side y m.country2)
        || (is_side y m.country1 && is_side x m.country2))

-- How many pairings of the two there are in the groups.
abbrev pub meetings : String → String → List Group → ℕ
meetings x y [] = 0
meetings x y (g ∷ gs) =
    count (has_code x) g.countries * count (has_code y) g.countries + meetings x y gs

-- No code is both.
has_code-apart : (x y : String) (c : Country) → x ≢ y → (has_code x c && has_code y c) ≡ false
has_code-apart x y c ne = elim (Bool-cases (c.code == x)) [
  | inl t ↦ elim (Bool-cases (c.code == y)) [
    | inl u ↦ absurd (ne (sym ((==_iff c.code x).0 t) ∙ (==_iff c.code y).0 u))
    | inr v ↦ ground (arith, v)
  ]
  | inr v ↦ ground (arith, v)
]

count-against :
    (x y : String) (c : Country) (cs : List Country)
    → x ≢ y
    → count (is_meeting x y) (against c cs) ≡ (
        if c.code == x
        then count (has_code y) cs
        else if c.code == y
        then count (has_code x) cs
        else 0)
count-against x y c [] ne = ground arith
count-against x y c (d ∷ cs) ne = ground (arith, count-against x y c cs ne, has_code-apart x y c ne)

-- The pairings grow by those of the country that is added, which is at most one of the two.
one_more :
    (b d : Bool) (m n : ℕ)
    → (b && d) ≡ false
    → (if b then n else if d then m else 0) + m * n
      ≡ (if b then suc m else m) * (if d then suc n else n)
one_more true true m n h = absurd (ground (arith, h))
one_more true false m n h = ground arith
one_more false true m n h = ground arith
one_more false false m n h = ground arith

count-pairs :
    (x y : String) (cs : List Country)
    → x ≢ y
    → count (is_meeting x y) (pairs cs) ≡ count (has_code x) cs * count (has_code y) cs
unfolding pairs
count-pairs x y [] ne = refl
count-pairs x y (c ∷ cs) ne =
    count-append (is_meeting x y) (against c cs) (pairs cs)
    ∙ rw (count-against x y c cs ne, count-pairs x y cs ne)
        (one_more (c.code == x) (c.code == y) (count (has_code x) cs) (count (has_code y) cs)
          (has_code-apart x y c ne))

pub count-group_matches :
    (x y : String) (gs : List Group)
    → x ≢ y
    → count (is_meeting x y) (group_matches gs) ≡ meetings x y gs
unfolding group_matches
count-group_matches x y [] ne = refl
count-group_matches x y (g ∷ gs) ne = ground (
  arith,
  count-group_matches x y gs ne,
  count-append (is_meeting x y) (pairs g.countries) (group_matches gs),
  count-pairs x y g.countries ne,
)

pub knockout-meetings : (x y : String) → count (is_meeting x y) knockout_matches ≡ 0
unfolding knockout_matches round_matches
knockout-meetings x y = ground arith
