-- ===== src/Service/Contest.antt =====
-- `ContestService` of core/service/contest.go. `make_slug` stands for `slug.Make`, and `random` for
-- what `rand.Read` does with eight bytes.
pub mod Counting
pub mod Meetings
pub mod Slots
pub mod Generated
pub mod Owner
use wcwcpp_backend.Base.{
  ℕ, zero, suc, ◌%◌, ◌<>◌, String, Bool, true, false, not, Option, none, some, List, [], ◌∷◌, ◌++◌,
  map, ◌==◌, nat_eq, string_eq, if◌then◌else◌,
}
use wcwcpp_backend.Base.Int.{ℤ, pos}
use wcwcpp_backend.Entity.{Uuid, Contest, Subcontest, Country, Group, Match}
use wcwcpp_backend.Sql.{
  Action, Done, World, Result, ok, err, Error, message, pure, fail, fail_if, or_fail, ◌>>=◌, ◌>>◌,
}
use wcwcpp_backend.Ports.{ContestRepository}
use wcwcpp_backend.Service.Picks.{the_contest}

-- A match that has not been played, between two countries or none.
abbrev pub new_match : Option Country → Option Country → ℤ → Option ℤ → Match
new_match c1 c2 round index = record {
  country1 = c1;
  country2 = c2;
  country1_goals = none;
  country2_goals = none;
  country1_penalties = none;
  country2_penalties = none;
  country1_conduct_score = none;
  country2_conduct_score = none;
  round = round;
  round_index = index;
}

-- The inner loop, over the countries after the first of the pair, and the outer loop.
abbrev pub against : Country → List Country → List Match
against c [] = []
against c (d ∷ ds) = new_match (some c) (some d) (pos 0) none ∷ against c ds

unfoldable pub pairs : List Country → List Match
pairs [] = []
pairs (c ∷ cs) = against c cs ++ pairs cs

unfoldable pub group_matches : List Group → List Match
group_matches [] = []
group_matches (g ∷ gs) = pairs g.countries ++ group_matches gs

-- `for i := range k.count`: from index i on, n matches.
unfoldable pub round_matches : ℤ → ℕ → ℕ → List Match
round_matches round i zero = []
round_matches round i (suc n) =
    new_match none none round (some (pos i)) ∷ round_matches round (suc i) n

unfoldable pub knockout_matches : List Match
unfolding round_matches
knockout_matches =
    round_matches (pos 1) 0 16
    ++ round_matches (pos 2) 0 8
    ++ round_matches (pos 3) 0 4
    ++ round_matches (pos 4) 0 2
    ++ round_matches (pos 5) 0 2

unfoldable pub generated_matches : List Group → List Match
generated_matches groups = group_matches groups ++ knockout_matches

unfoldable pub all_countries : List Group → List Country
all_countries [] = []
all_countries (g ∷ gs) = g.countries ++ all_countries gs

-- The characters that a join code is made of.
abbrev pub charset : List String
charset =
    "A" ∷ "B" ∷ "C" ∷ "D" ∷ "E" ∷ "F" ∷ "G" ∷ "H" ∷ "J" ∷ "K" ∷ "L" ∷ "M" ∷ "N" ∷ "P" ∷ "Q" ∷ "R"
    ∷ "S" ∷ "T" ∷ "U" ∷ "V" ∷ "W" ∷ "X" ∷ "Y" ∷ "Z" ∷ "0" ∷ "1" ∷ "2" ∷ "3" ∷ "4" ∷ "5" ∷ "6" ∷ "7"
    ∷ "8" ∷ "9" ∷ []

abbrev pub char_at : ℕ → List String → String
char_at i [] = ""
char_at zero (c ∷ cs) = c
char_at (suc i) (c ∷ cs) = char_at i cs

unfoldable pub join_code_of : List ℕ → String
join_code_of [] = ""
join_code_of (b ∷ bs) = char_at (b % 34) charset <> join_code_of bs

abbrev pub from_result : {A : Type 0} → Result A → Action A
from_result (ok a) = pure a
from_result (err e) = fail e

module _ (repo : ContestRepository) where
  unfoldable pub list_contests : Action (List Contest)
  list_contests = repo.list_contests

  unfoldable pub create_contest : (String → String) → Contest → Action Done
  create_contest make_slug contest = do
    let named =
        if contest.slug == "" then record contest { slug = make_slug contest.title } else contest
    id ← repo.create_contest named
    repo.create_countries (all_countries named.groups)
    repo.create_matches id (generated_matches named.groups)
    repo.create_group_standings id named.groups

  unfoldable pub list_subcontests : Uuid → String → Action (List Subcontest)
  list_subcontests user slug = do
    contest ← the_contest (repo.get_contest_by_slug slug)
    repo.list_subcontests contest.id user

  unfoldable pub create_subcontest :
      (String → String) → Result (List ℕ) → Uuid → String → String → Bool → Action (String × String)
  create_subcontest make_slug random user slug title self_join = do
    contest ← the_contest (repo.get_contest_by_slug slug)
    bytes ← from_result random
    let sub : Subcontest = record {
      id = 0;
      contest_id = contest.id;
      user_id = user;
      join_code = join_code_of bytes;
      title = title;
      slug = make_slug title;
      is_owner = false;
      is_member = false;
    }
    id ← repo.create_subcontest sub
    if self_join then repo.join_subcontest id user else pure tt
    pure (sub.join_code, sub.slug)

  unfoldable pub delete_subcontest : Uuid → String → Action Done
  delete_subcontest user slug = do
    found ← repo.get_subcontest_by_slug slug
    sub ← or_fail found (message "subcontest not found")
    fail_if (not (sub.user_id == user)) (message "not owner")
    repo.delete_subcontest sub.id

  unfoldable pub join_subcontest : Uuid → String → Action Done
  join_subcontest user join_code = do
    found ← repo.get_subcontest_by_join_code join_code
    sub ← or_fail found (message "invalid join code")
    repo.join_subcontest sub.id user

  unfoldable pub finalize_group_rankings : String → String → List String → Action Done
  finalize_group_rankings slug letter codes = do
    contest ← the_contest (repo.get_contest_by_slug slug)
    repo.finalize_group_rankings contest.id letter codes

  unfoldable pub finalize_third_place_qualifier : String → String → Bool → Action Done
  finalize_third_place_qualifier slug letter qualifies = do
    contest ← the_contest (repo.get_contest_by_slug slug)
    repo.finalize_third_place_qualifier contest.id letter qualifies
