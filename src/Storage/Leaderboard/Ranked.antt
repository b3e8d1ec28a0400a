-- ===== src/Storage/Leaderboard/Ranked.antt =====
-- What a leaderboard shows.
use mathlib.Core.List.{Perm}
use wcwcpp_backend.Base.{◌≡◌, Option, none, some, refl, arith, String, List, [], ◌∷◌, Dict, if_elim}
use wcwcpp_backend.Base.Int.{ℤ, pos, negsuc}
use wcwcpp_backend.Entity.{Uuid, LeaderboardEntry}
use wcwcpp_backend.Rows.{Db}
use wcwcpp_backend.Sql.{ok, Error, World, with_db}
use wcwcpp_backend.Sql.Order.{
  order_by, page, limited, skipped, IsOrdered, IsOrder, order_by-IsOrdered, order_by-perm,
}
use wcwcpp_backend.Sql.Post.{
  Yields, Then, bind-Yields, exec-Yields, pure-Yields, fact-Yields, weaken-Yields, Yields_ok,
}
use wcwcpp_backend.Storage.Leaderboard.{
  Board, ranks_before, sum_fits, board, contest_entries, leaderboard,
}

ranks_before-IsOrder : IsOrder ranks_before
ranks_before-IsOrder = record {
  total = λ x y h. ground (arith, h);
  trans = λ x y z h k. ground (arith, h, k);
}

-- A page of some ranking, highest score first, of exactly the given entries.
abbrev pub IsPage : ℤ → ℤ → List LeaderboardEntry → List LeaderboardEntry → Type 0
IsPage limit offset entries shown =
    (ranked : List LeaderboardEntry) × Perm ranked entries
    × IsOrdered ranks_before ranked
    × (shown ≡ limited limit (skipped offset ranked))

ranking-IsPage :
    (limit offset : ℤ) (entries : List LeaderboardEntry)
    → IsPage limit offset entries (limited limit (skipped offset (order_by ranks_before entries)))
ranking-IsPage limit offset entries = (
  order_by ranks_before entries,
  order_by-perm ranks_before entries,
  order_by-IsOrdered ranks_before ranks_before-IsOrder entries,
  refl,
)

module _ (bad_offset : Option Error) where
  page-Then :
      (limit offset : ℤ) (entries : List LeaderboardEntry) (d : Db)
      → Then
          (λ shown db. (db ≡ d) × IsPage limit offset entries shown)
          (with_db d (page bad_offset limit offset (order_by ranks_before entries)))
  unfolding page
  page-Then limit (pos k) entries d = (refl, ranking-IsPage limit (pos k) entries)
  page-Then limit (negsuc k) entries d =
      elim bad_offset
        as (λ b.
          Then (λ shown db. (db ≡ d) × IsPage limit (negsuc k) entries shown)
            (with_db d (page b limit (negsuc k) (order_by ranks_before entries)))) [
              | none ↦ (refl, ranking-IsPage limit (negsuc k) entries)
              | some e ↦ tt
            ]

  board-Yields :
      (entries : Db → List LeaderboardEntry) (limit offset : ℤ) (d : Db)
      → Yields
          (λ db. db ≡ d)
          (board bad_offset entries limit offset)
          (λ shown db. (db ≡ d) × IsPage limit offset (entries d) shown)
  unfolding board
  board-Yields entries limit offset d = exec-Yields _ λ db same. rw same (
      if_elim
        (λ r. Then (λ shown db. (db ≡ d) × IsPage limit offset (entries d) shown) (with_db d r))
        (sum_fits (entries d)) _ _ (page-Then limit offset (entries d) d) tt)

-- The three boards of a page.
abbrev pub ArePages :
    ℤ → ℤ → (Board → List LeaderboardEntry) → Dict String (List LeaderboardEntry) → Type 0
ArePages limit offset entries shown =
    (g : List LeaderboardEntry) × (k : List LeaderboardEntry) × (o : List LeaderboardEntry) × (shown
      ≡ ("group", g) ∷ ("knockout", k) ∷ ("overall", o) ∷ [])
    × IsPage limit offset (entries Board.group) g
    × IsPage limit offset (entries Board.knockout) k
    × IsPage limit offset (entries Board.overall) o

-- A leaderboard that is given out has three boards. Each is the part that limit and offset name of
-- a ranking, highest score first, that has each user of the contest with the score of that board:
-- the group score, the knockout score, or their sum. A negative limit leaves out no later row of
-- the ranking, and a negative offset that is not refused leaves out no earlier one.
pub leaderboard-ArePages :
    (bad_offset : Option Error) (contest : Uuid) (limit offset : ℤ) (w : World) {w' : World}
    {shown : Dict String (List LeaderboardEntry)}
    → leaderboard bad_offset contest limit offset w ≡ (ok shown, w')
    → ArePages limit offset (λ b. contest_entries b contest w.db) shown
unfolding leaderboard
leaderboard-ArePages bad_offset contest limit offset w e =
    Yields_ok {R = λ shown db. ArePages limit offset (λ b. contest_entries b contest w.db) shown}
      (bind-Yields _
        (board-Yields bad_offset (contest_entries Board.group contest) limit offset w.db)
        λ g. fact-Yields λ pg.
          bind-Yields _
            (board-Yields bad_offset (contest_entries Board.knockout contest) limit offset w.db)
            λ k. fact-Yields λ pk.
              bind-Yields _
                (board-Yields bad_offset (contest_entries Board.overall contest) limit offset w.db)
                λ o. fact-Yields λ po.
                  weaken-Yields (λ db p. (g, k, o, refl, pg, pk, po)) (λ _ db p. p) (pure-Yields _))
      w refl e
