-- ===== src/Storage/Lists/Sorted.antt =====
-- What the lists of knockout matches and of group picks hold.
use mathlib.Core.List.{Perm}
use wcwcpp_backend.Base.{◌≡◌, refl, arith, List, map, ◌==◌, string_eq, nat_eq, ◌&&◌, select}
use wcwcpp_backend.Base.Int.{ltb_ℤ, pos}
use wcwcpp_backend.Entity.{Uuid, Match}
use wcwcpp_backend.Rows.{Db, MatchRow}
use wcwcpp_backend.Sql.{World, ok}
use wcwcpp_backend.Sql.Order.{order_by, IsOrder, IsOrdered, order_by-IsOrdered, order_by-perm}
use wcwcpp_backend.Sql.Post.{query-Yields, Yields_ok}
use wcwcpp_backend.Storage.Lists.{list_knockout_matches, round_before, match_entity}

round_before-IsOrder : IsOrder round_before
round_before-IsOrder = record {
  total = λ m n h. ground (arith, h);
  trans = λ m n k h i. ground (arith, h, i);
}

-- The entities of some ranking of exactly the given rows.
abbrev pub IsInRoundOrder : Db → List MatchRow → List Match → Type 0
IsInRoundOrder db rows listed =
    (ranked : List MatchRow) × Perm ranked rows
    × IsOrdered round_before ranked
    × (listed ≡ map (match_entity db) ranked)

-- ListKnockoutMatches gives every match of the contest in a round above 0, each once, by round and
-- within a round by index, those without an index last.
pub list_knockout_matches-IsInRoundOrder :
    (contest : Uuid) (w : World) {w' : World} {listed : List Match}
    → list_knockout_matches contest w ≡ (ok listed, w')
    → IsInRoundOrder w.db
        (select (λ m. ltb_ℤ (pos 0) m.round && m.contest_id == contest) w.db.matches)
        listed
unfolding list_knockout_matches
list_knockout_matches-IsInRoundOrder contest w {listed = listed} e =
    let rows =
      λ (db : Db). select (λ m. ltb_ℤ (pos 0) m.round && m.contest_id == contest) db.matches in
    Yields_ok {P = λ db. db ≡ w.db} {R = λ shown _. IsInRoundOrder w.db (rows w.db) shown}
      (query-Yields _ λ db same. rw same (
        order_by round_before (rows w.db),
        order_by-perm round_before (rows w.db),
        order_by-IsOrdered round_before round_before-IsOrder (rows w.db),
        refl,
      ))
      w refl e
