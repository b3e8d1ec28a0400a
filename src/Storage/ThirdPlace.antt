-- ===== src/Storage/ThirdPlace.antt =====
-- `FinalizeThirdPlaceQualifier` of adapters/storage/postgres/contest.go.
pub mod Bonus
pub mod Decided
pub mod Once
use wcwcpp_backend.Base.{
  String, Bool, true, false, Option, some, List, [], ◌∷◌, map, ◌&&◌, not, ◌==◌, nat_eq, string_eq,
  any, select, if◌then◌else◌,
}
use wcwcpp_backend.Base.Int.{pos, int_eq}
use wcwcpp_backend.Entity.{Uuid}
use wcwcpp_backend.Rows.{Db}
use wcwcpp_backend.Sql.{
  Action, Done, quoted, wrap, TxEnd, commit, pure, fail_if, ◌>>=◌, ◌>>◌, query, query_one, write,
  on_error, in_tx, update_where,
}
use wcwcpp_backend.Storage.Existing.{is_some, is_int}
use wcwcpp_backend.Storage.Standings.{group_key}
use wcwcpp_backend.Storage.FinalizeGroup.{in_group, group_picks_of}
use wcwcpp_backend.Storage.Award.{Stage, award_all}

abbrev pub bool_eq : Bool → Bool → Bool
bool_eq true b = b
bool_eq false b = not b

-- The countries of rank 3, in table order.
unfoldable pub third_place : Uuid → String → Db → List Uuid
third_place contest letter db =
    map (λ s. s.country_id)
      (select (λ s. in_group contest letter s && is_int s.rank (pos 3)) db.group_standings)

-- The qualifier column of a country's standing.
unfoldable pub qualifier_of : Uuid → Uuid → Db → List (Option Bool)
qualifier_of contest country db =
    map (λ s. s.is_third_place_qualifier) (select (group_key contest country) db.group_standings)

unfoldable pub set_qualifier : Uuid → Uuid → Bool → Db → Db
set_qualifier contest country qualifies db = record db {
  group_standings =
      update_where (group_key contest country)
        (λ s. record s { is_third_place_qualifier = some qualifies }) db.group_standings;
}

abbrev pub same_pick : Uuid × Bool → Uuid × Bool → Bool
same_pick (u, b) (v, c) = u == v && bool_eq b c

-- SELECT DISTINCT: the first of equal rows stays.
unfoldable pub distinct_picks : List (Uuid × Bool) → List (Uuid × Bool) → List (Uuid × Bool)
distinct_picks seen [] = []
distinct_picks seen (p ∷ ps) =
    let rest = distinct_picks (p ∷ seen) ps in
    let skipped = distinct_picks seen ps in if any (same_pick p) seen then skipped else p ∷ rest

-- The query builder makes one struct for each user, the key that is selected: the first row stays.
unfoldable pub one_per_user : List Uuid → List (Uuid × Bool) → List (Uuid × Bool)
one_per_user seen [] = []
one_per_user seen ((user, predicted) ∷ ps) =
    let rest = one_per_user (user ∷ seen) ps in
    let skipped = one_per_user seen ps in
    if any (λ u. u == user) seen then skipped else (user, predicted) ∷ rest

-- The distinct rows of the users' predictions of whether the third of the group qualifies.
unfoldable pub predictions : Uuid → String → Db → List (Uuid × Bool)
unfolding distinct_picks group_picks_of
predictions contest letter db =
    distinct_picks [] (map (λ p. (p.user_id, p.extra_qualifier)) (group_picks_of contest letter db))

-- `userPicks`: the distinct rows come in an order that the server chooses.
unfoldable pub qualifier_picks :
    (List (Uuid × Bool) → List (Uuid × Bool)) → Uuid → String → Db → List (Uuid × Bool)
unfolding one_per_user
qualifier_picks pick_order contest letter db =
    one_per_user [] (pick_order (predictions contest letter db))

-- The users of the loop's `if p.ExtraQualifier == isWildcardQualifier`.
unfoldable pub right_users : Bool → List (Uuid × Bool) → List Uuid
right_users qualifies [] = []
right_users qualifies ((user, predicted) ∷ ps) =
    let rest = right_users qualifies ps in if bool_eq predicted qualifies then user ∷ rest else rest

-- The lookup has no ORDER BY either: of several countries of rank 3 it takes the server's first.
module _ (row_order : List Uuid → List Uuid)
    (pick_order : List (Uuid × Bool) → List (Uuid × Bool)) where
  unfoldable pub qualifier_statements : Uuid → String → Bool → Action TxEnd
  qualifier_statements contest letter qualifies = do
    country ←
        on_error (wrap "failed to find third-place team: group rankings might not be finalized yet")
          (query_one (λ db. row_order (third_place contest letter db)))
    existing ←
        on_error (wrap "failed to check existing qualifier")
          (query_one (qualifier_of contest country))
    fail_if (is_some existing) (
        quoted "third-place qualifier for group " letter
          " has already been finalized and cannot be updated again")
    on_error (wrap "failed to update third-place qualifier status")
        (write (set_qualifier contest country qualifies))
    picks ←
        on_error (wrap "failed to fetch user group qualifier picks")
          (query (qualifier_picks pick_order contest letter))
    award_all (wrap "failed to award bonus points") Stage.group_stage contest (pos 5)
        (right_users qualifies picks)
    pure commit

  unfoldable pub finalize_third_place_qualifier : Uuid → String → Bool → Action Done
  finalize_third_place_qualifier contest letter qualifies =
      in_tx (λ e. e) (wrap "failed to commit transaction")
        (qualifier_statements contest letter qualifies)
