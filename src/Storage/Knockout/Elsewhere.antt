-- ===== src/Storage/Knockout/Elsewhere.antt =====
-- The rewards do not touch the matches and the group standings.
use wcwcpp_backend.Base.{List, ◌==◌, nat_eq}
use wcwcpp_backend.Base.Int.{ℤ, pos, ltb_ℤ, int_eq}
use wcwcpp_backend.Entity.{Uuid}
use wcwcpp_backend.Rows.{Db, MatchRow, GroupStandingRow}
use wcwcpp_backend.Sql.Post.{
  Yields, write-Yields, on_error-Yields, then-Yields, bind-Yields, query-Yields, pure-Yields,
  if-Yields,
}
use wcwcpp_backend.Storage.Award.Elsewhere.{award_all-elsewhere}
use wcwcpp_backend.Storage.Knockout.{set_reached, reward_winner, reward_loser}

module _ (P : List MatchRow → List GroupStandingRow → Type 0) where
  abbrev pub OfTables : Db → Type 0
  OfTables db = P db.matches db.group_standings

  pub reward_winner-elsewhere :
      (contest winner : Uuid) (round points : ℤ)
      → Yields OfTables (reward_winner contest winner round points) (λ _. OfTables)
  unfolding reward_winner set_reached
  reward_winner-elsewhere contest winner round points =
      if-Yields (ltb_ℤ (pos 0) round)
        (then-Yields OfTables (on_error-Yields _ (write-Yields _ (λ db p. p))) (
          if-Yields (ltb_ℤ (pos 0) points)
            (bind-Yields (λ _. OfTables) (on_error-Yields _ (query-Yields _ (λ db p. p)))
              (λ users. award_all-elsewhere OfTables (λ db rows p. p) _ _ contest points users))
            (pure-Yields tt)))
        (pure-Yields tt)

  pub reward_loser-elsewhere :
      (contest : Uuid) (round : ℤ) (loser : Uuid)
      → Yields OfTables (reward_loser contest round loser) (λ _. OfTables)
  unfolding reward_loser set_reached
  reward_loser-elsewhere contest round loser =
      if-Yields (round == pos 4) (on_error-Yields _ (write-Yields _ (λ db p. p))) (pure-Yields tt)
