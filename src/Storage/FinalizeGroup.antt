-- ===== src/Storage/FinalizeGroup.antt =====
-- `FinalizeGroupRankings` of adapters/storage/postgres/contest.go.
-- Go runs through a map in an order that it does not fix: `order` stands for it, and maps the
-- entries to the same entries in some order.
pub mod Totals
pub mod Payout
pub mod Bound
pub mod Guards
use wcwcpp_backend.Base.{
  ℕ, suc, ◌+◌, String, Bool, true, false, not, Option, none, some, List, [], ◌∷◌, ◌&&◌, ◌||◌, ◌==◌,
  nat_eq, string_eq, ltb, select, length, any, lookup, insert, Dict, if◌then◌else◌,
}
use wcwcpp_backend.Base.Int.{ℤ, pos, add32, mul32, int_eq}
use wcwcpp_backend.Entity.{Uuid}
use wcwcpp_backend.Rows.{Db, MatchRow, GroupStandingRow, GroupPickRow}
use wcwcpp_backend.Sql.{
  Action, Done, Error, Result, ok, err, World, message, counted, quoted, wrap, TxEnd, commit,
  no_commit, pure, fail, fail_if, or_fail, ◌>>=◌, ◌>>◌, query, write, exec, on_error, in_tx,
  update_where,
}
use wcwcpp_backend.Storage.Search.{get_country_code_to_id_map}
use wcwcpp_backend.Storage.Existing.{is_some, is_id}
use wcwcpp_backend.Storage.Standings.{group_key}
use wcwcpp_backend.Storage.Award.{Stage, award}

-- Whether a standing puts a country into a group of a contest.
abbrev pub in_group : Uuid → String → GroupStandingRow → Bool
in_group contest letter s = s.contest_id == contest && s.letter == letter

-- The join of a match with the standing of its first country.
abbrev pub joins : Uuid → String → MatchRow → GroupStandingRow → Bool
joins contest letter m s = in_group contest letter s && is_id m.country1_id s.country_id

abbrev pub is_open : Uuid → MatchRow → Bool
is_open contest m =
    m.contest_id == contest
    && m.round == pos 0
    && (not (is_some m.country1_goals) || not (is_some m.country2_goals))

-- COUNT over the join: each open match as often as it joins.
abbrev pub count_joins : Uuid → String → List GroupStandingRow → List MatchRow → ℕ
count_joins contest letter standings [] = 0
count_joins contest letter standings (m ∷ ms) =
    length (select (joins contest letter m) standings) + count_joins contest letter standings ms

unfoldable pub incomplete_count : Uuid → String → Db → ℕ
incomplete_count contest letter db =
    count_joins contest letter db.group_standings (select (is_open contest) db.matches)

unfoldable pub finalized_count : Uuid → String → Db → ℕ
finalized_count contest letter db =
    length (select (λ s. in_group contest letter s && is_some s.rank) db.group_standings)

-- UPDATE group_standings SET rank, of a country in a contest.
unfoldable pub set_rank : Uuid → Uuid → ℤ → Db → Db
set_rank contest country rank db = record db {
  group_standings =
      update_where (group_key contest country) (λ s. record s { rank = some rank })
        db.group_standings;
}

-- The loop over the ordered country codes: it sets the ranks and fills `rankMap`.
unfoldable pub rank_countries :
    Uuid → Dict String Uuid → ℕ → List String → Dict Uuid ℤ → Action (Dict Uuid ℤ)
rank_countries contest codes idx [] ranks = pure ranks
rank_countries contest codes idx (code ∷ rest) ranks = do
  country ← or_fail (lookup code codes) (quoted "invalid country code: " code "")
  on_error (wrap "failed to update rank") (write (set_rank contest country (pos (suc idx))))
  rank_countries contest codes (suc idx) rest (insert country (pos (suc idx)) ranks)

-- The two switches.
unfoldable pub multiplier : ℤ → ℤ
multiplier place =
    if place == pos 1
    then pos 3
    else if place == pos 2
    then pos 2
    else if place == pos 3
    then pos 1
    else pos 0

unfoldable pub base_points : ℤ → ℤ
base_points rank =
    if rank == pos 1
    then pos 10
    else if rank == pos 2
    then pos 6
    else if rank == pos 3
    then pos 3
    else if rank == pos 4
    then pos 1
    else pos 0

abbrev pub total_of : Option ℤ → ℤ
total_of none = pos 0
total_of (some x) = x

-- `userPoints[p.UserID] += points`.
abbrev pub add_to : Uuid → ℤ → Dict Uuid ℤ → Dict Uuid ℤ
add_to user points totals = insert user (add32 (total_of (lookup user totals)) points) totals

-- One pick: nothing if its country was not ranked.
abbrev pub score_pick : Option ℤ → GroupPickRow → Dict Uuid ℤ → Dict Uuid ℤ
score_pick none p totals = totals
score_pick (some rank) p totals =
    add_to p.user_id (mul32 (base_points rank) (multiplier p.place)) totals

unfoldable pub score_picks : Dict Uuid ℤ → List GroupPickRow → Dict Uuid ℤ → Dict Uuid ℤ
score_picks ranks [] totals = totals
score_picks ranks (p ∷ ps) totals =
    score_picks ranks ps (score_pick (lookup p.country_id ranks) p totals)

abbrev pub is_group_pick : Uuid → String → GroupPickRow → Bool
is_group_pick contest letter p = p.contest_id == contest && p.letter == letter

unfoldable pub group_picks_of : Uuid → String → Db → List GroupPickRow
group_picks_of contest letter db = select (is_group_pick contest letter) db.group_picks

-- The loop over `userPoints`.
unfoldable pub pay_totals : Uuid → Dict Uuid ℤ → Action Done
pay_totals contest [] = pure tt
pay_totals contest ((user, points) ∷ rest) =
    on_error (wrap "failed to increment user group score")
      (exec (award Stage.group_stage contest user points))
    >> pay_totals contest rest

unfoldable pub finalize_statements :
    (Dict Uuid ℤ → Dict Uuid ℤ) → Uuid → String → List String → Action TxEnd
finalize_statements order contest letter codes = do
  open_matches ←
      on_error (wrap "failed to check for incomplete group matches")
        (query (incomplete_count contest letter))
  fail_if (ltb 0 open_matches)
      (counted "cannot finalize standings: there are " open_matches " incomplete group matches")
  finalized ←
      on_error (wrap "failed to check for existing finalization")
        (query (finalized_count contest letter))
  fail_if (ltb 0 finalized)
      (quoted "group " letter " standings have already been finalized and cannot be updated again")
  country_ids ← on_error (wrap "failed to load country map") get_country_code_to_id_map
  ranks ← rank_countries contest country_ids 0 codes []
  picks ← on_error (wrap "failed to fetch user group picks") (query (group_picks_of contest letter))
  pay_totals contest (order (score_picks ranks picks []))
  pure commit

unfoldable pub finalize_group_rankings :
    (Dict Uuid ℤ → Dict Uuid ℤ) → Uuid → String → List String → Action Done
finalize_group_rankings order contest letter codes =
    in_tx (λ e. e) (wrap "failed to commit transaction")
      (finalize_statements order contest letter codes)
